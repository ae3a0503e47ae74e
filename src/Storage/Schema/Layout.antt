-- ===== src/Storage/Schema/Layout.antt =====
-- What outbox_store_open makes of a database: it is handed out in the current layout, or closed in a layout
-- that can be opened again.
use edgevision_gateway.Common.{
  ℕ, ◌≡◌, ◌≢◌, ◌⊎◌, inl, inr, refl, sym, ap, ◌∙◌, arith, true, false, not, ◌||◌, List, length, ◌==◌,
  ◌!=◌, if_both, ==_iff,
}
use edgevision_gateway.Common.Int.{ℤ, pos, negsuc, ltb_ℤ}
use edgevision_gateway.Storage.Result.{
  StoreResult, ok, empty, not_found, invalid_argument, busy, db_error, schema_error,
  serialization_error, no_memory, sqlite_ok, Query,
}
use edgevision_gateway.Storage.Result.Errors.{map_error}
use edgevision_gateway.Storage.Schema.{
  Schema, outbox_store_create_schema, outbox_store_migrate_v1_to_v2, outbox_store_migrate_v2_to_v3,
  outbox_store_migrate_v3_to_v4, Script, Progress, reread, at_version, OpenAnswers, Opened, give_up,
  verified, migrated, versioned, journaled, keyed, outbox_store_open,
}
use edgevision_gateway.Storage.Schema.Versions.{
  IsLayout, IsCurrent, layout-IsCurrent, Keeps, create-Keeps, migrate_v1-Keeps, migrate_v2-Keeps,
  migrate_v3-Keeps, IsStepped, IsRead, user_version-IsRead, IsProgress,
}

reread-IsProgress :
    (q : Query) (x : StoreResult × Schema) → IsStepped q → IsLayout x.1 → IsProgress (reread q x)
unfolding reread
reread-IsProgress q (ok, s) never h = (h, user_version-IsRead q s never)
reread-IsProgress q (empty, s) never h = (h, λ e. absurd cc)
reread-IsProgress q (not_found, s) never h = (h, λ e. absurd cc)
reread-IsProgress q (invalid_argument, s) never h = (h, λ e. absurd cc)
reread-IsProgress q (busy, s) never h = (h, λ e. absurd cc)
reread-IsProgress q (db_error, s) never h = (h, λ e. absurd cc)
reread-IsProgress q (schema_error, s) never h = (h, λ e. absurd cc)
reread-IsProgress q (serialization_error, s) never h = (h, λ e. absurd cc)
reread-IsProgress q (no_memory, s) never h = (h, λ e. absurd cc)

at_version-IsProgress :
    (n : ℕ) (script : ℕ → Schema → StoreResult × Schema) (a : Script) (x : Progress)
    → Keeps n script
    → IsStepped a.read
    → IsProgress x
    → IsProgress (at_version n script a x)
unfolding at_version
at_version-IsProgress n script a (ok, pos version, s) keeps never (h, same) =
    if_both IsProgress (version == n) _ _
      (λ e.
        reread-IsProgress a.read _ never
          (keeps a.exec s h (sym (same refl) ∙ ap pos ((==_iff version n).0 e))))
      (λ e. (h, same))
at_version-IsProgress n script a (ok, negsuc version, s) keeps never h = h
at_version-IsProgress n script a (empty, version, s) keeps never h = h
at_version-IsProgress n script a (not_found, version, s) keeps never h = h
at_version-IsProgress n script a (invalid_argument, version, s) keeps never h = h
at_version-IsProgress n script a (busy, version, s) keeps never h = h
at_version-IsProgress n script a (db_error, version, s) keeps never h = h
at_version-IsProgress n script a (schema_error, version, s) keeps never h = h
at_version-IsProgress n script a (serialization_error, version, s) keeps never h = h
at_version-IsProgress n script a (no_memory, version, s) keeps never h = h

-- The outcome of an opening: the store is handed out on an open connection, in the current layout, or
-- an error is returned without a store, and the connection is closed. The layout is one of a version.
abbrev pub IsOpened : Opened → Type 0
IsOpened o =
    (((o.result ≡ ok) × (o.has_store ≡ true) × (o.is_connected ≡ true) × IsCurrent o.schema)
      ⊎ ((o.result ≢ ok) × (o.has_store ≡ false) × (o.is_connected ≡ false)))
    × IsLayout o.schema

give_up-IsOpened : (r : StoreResult) (s : Schema) → r ≢ ok → IsLayout s → IsOpened (give_up r s)
unfolding give_up
give_up-IsOpened r s bad h = (inr (bad, refl, refl), h)

verified-IsOpened :
    (s : Schema) (r : StoreResult) → IsLayout s → s.user_version ≡ pos 4 → IsOpened (verified s r)
unfolding verified
verified-IsOpened s ok h e = (inl (refl, refl, refl, layout-IsCurrent s h e), h)
verified-IsOpened s empty h e = give_up-IsOpened empty s (λ k. absurd cc) h
verified-IsOpened s not_found h e = give_up-IsOpened not_found s (λ k. absurd cc) h
verified-IsOpened s invalid_argument h e = give_up-IsOpened invalid_argument s (λ k. absurd cc) h
verified-IsOpened s busy h e = give_up-IsOpened busy s (λ k. absurd cc) h
verified-IsOpened s db_error h e = give_up-IsOpened db_error s (λ k. absurd cc) h
verified-IsOpened s schema_error h e = give_up-IsOpened schema_error s (λ k. absurd cc) h
verified-IsOpened s serialization_error h e =
    give_up-IsOpened serialization_error s (λ k. absurd cc) h
verified-IsOpened s no_memory h e = give_up-IsOpened no_memory s (λ k. absurd cc) h

migrated-IsOpened : (a : OpenAnswers) (x : Progress) → IsProgress x → IsOpened (migrated a x)
unfolding migrated
migrated-IsOpened a (ok, pos version, s) (h, same) =
    if_both IsOpened (version != 4) _ _ (λ e. give_up-IsOpened schema_error s (λ k. absurd cc) h)
      (λ e. verified-IsOpened s _ h (sym (same refl) ∙ ap pos (ground (arith, e))))
migrated-IsOpened a (ok, negsuc version, s) (h, same) =
    give_up-IsOpened schema_error s (λ k. absurd cc) h
migrated-IsOpened a (empty, version, s) (h, same) = give_up-IsOpened empty s (λ k. absurd cc) h
migrated-IsOpened a (not_found, version, s) (h, same) =
    give_up-IsOpened not_found s (λ k. absurd cc) h
migrated-IsOpened a (invalid_argument, version, s) (h, same) =
    give_up-IsOpened invalid_argument s (λ k. absurd cc) h
migrated-IsOpened a (busy, version, s) (h, same) = give_up-IsOpened busy s (λ k. absurd cc) h
migrated-IsOpened a (db_error, version, s) (h, same) =
    give_up-IsOpened db_error s (λ k. absurd cc) h
migrated-IsOpened a (schema_error, version, s) (h, same) =
    give_up-IsOpened schema_error s (λ k. absurd cc) h
migrated-IsOpened a (serialization_error, version, s) (h, same) =
    give_up-IsOpened serialization_error s (λ k. absurd cc) h
migrated-IsOpened a (no_memory, version, s) (h, same) =
    give_up-IsOpened no_memory s (λ k. absurd cc) h

-- No step of the reads of user_version returns SQLITE_OK.
abbrev pub AreStepped : OpenAnswers → Type 0
AreStepped a =
    IsStepped a.read
    × IsStepped a.create.read
    × IsStepped a.migrate_v1.read
    × IsStepped a.migrate_v2.read
    × IsStepped a.migrate_v3.read

versioned-IsOpened :
    (a : OpenAnswers) (s : Schema) (x : StoreResult × ℤ)
    → AreStepped a
    → IsLayout s
    → IsRead s x
    → IsOpened (versioned a s x)
unfolding versioned
versioned-IsOpened a s (ok, version) (read, zeroth, first, second, third) h same =
    if_both IsOpened (ltb_ℤ version (pos 0) || ltb_ℤ (pos 4) version) _ _
      (λ e. give_up-IsOpened schema_error s (λ k. absurd cc) h)
      (λ e. migrated-IsOpened a _ (
        at_version-IsProgress 3 outbox_store_migrate_v3_to_v4 a.migrate_v3 _ migrate_v3-Keeps third
          (at_version-IsProgress 2 outbox_store_migrate_v2_to_v3 a.migrate_v2 _ migrate_v2-Keeps
            second
            (at_version-IsProgress 1 outbox_store_migrate_v1_to_v2 a.migrate_v1 _ migrate_v1-Keeps
              first
              (at_version-IsProgress 0 outbox_store_create_schema a.create _ create-Keeps zeroth
                (h, same))))))
versioned-IsOpened a s (empty, version) steps h same = give_up-IsOpened empty s (λ k. absurd cc) h
versioned-IsOpened a s (not_found, version) steps h same =
    give_up-IsOpened not_found s (λ k. absurd cc) h
versioned-IsOpened a s (invalid_argument, version) steps h same =
    give_up-IsOpened invalid_argument s (λ k. absurd cc) h
versioned-IsOpened a s (busy, version) steps h same = give_up-IsOpened busy s (λ k. absurd cc) h
versioned-IsOpened a s (db_error, version) steps h same =
    give_up-IsOpened db_error s (λ k. absurd cc) h
versioned-IsOpened a s (schema_error, version) steps h same =
    give_up-IsOpened schema_error s (λ k. absurd cc) h
versioned-IsOpened a s (serialization_error, version) steps h same =
    give_up-IsOpened serialization_error s (λ k. absurd cc) h
versioned-IsOpened a s (no_memory, version) steps h same =
    give_up-IsOpened no_memory s (λ k. absurd cc) h

journaled-IsOpened :
    (a : OpenAnswers) (s : Schema) (r : StoreResult)
    → AreStepped a
    → IsLayout s
    → IsOpened (journaled a s r)
unfolding journaled
journaled-IsOpened a s ok steps h =
    versioned-IsOpened a s _ steps h (user_version-IsRead a.read s (steps.0))
journaled-IsOpened a s empty steps h = give_up-IsOpened empty s (λ k. absurd cc) h
journaled-IsOpened a s not_found steps h = give_up-IsOpened not_found s (λ k. absurd cc) h
journaled-IsOpened a s invalid_argument steps h =
    give_up-IsOpened invalid_argument s (λ k. absurd cc) h
journaled-IsOpened a s busy steps h = give_up-IsOpened busy s (λ k. absurd cc) h
journaled-IsOpened a s db_error steps h = give_up-IsOpened db_error s (λ k. absurd cc) h
journaled-IsOpened a s schema_error steps h = give_up-IsOpened schema_error s (λ k. absurd cc) h
journaled-IsOpened a s serialization_error steps h =
    give_up-IsOpened serialization_error s (λ k. absurd cc) h
journaled-IsOpened a s no_memory steps h = give_up-IsOpened no_memory s (λ k. absurd cc) h

keyed-IsOpened :
    (a : OpenAnswers) (s : Schema) (r : StoreResult)
    → AreStepped a
    → IsLayout s
    → IsOpened (keyed a s r)
unfolding keyed
keyed-IsOpened a s ok steps h = journaled-IsOpened a s _ steps h
keyed-IsOpened a s empty steps h = give_up-IsOpened empty s (λ k. absurd cc) h
keyed-IsOpened a s not_found steps h = give_up-IsOpened not_found s (λ k. absurd cc) h
keyed-IsOpened a s invalid_argument steps h = give_up-IsOpened invalid_argument s (λ k. absurd cc) h
keyed-IsOpened a s busy steps h = give_up-IsOpened busy s (λ k. absurd cc) h
keyed-IsOpened a s db_error steps h = give_up-IsOpened db_error s (λ k. absurd cc) h
keyed-IsOpened a s schema_error steps h = give_up-IsOpened schema_error s (λ k. absurd cc) h
keyed-IsOpened a s serialization_error steps h =
    give_up-IsOpened serialization_error s (λ k. absurd cc) h
keyed-IsOpened a s no_memory steps h = give_up-IsOpened no_memory s (λ k. absurd cc) h

-- Opening a database in the layout of its version, whatever SQLite answers, but that sqlite3_step never
-- returns SQLITE_OK to a read of user_version: either it succeeds and hands out a store whose
-- connection is open and whose database has version 4 with all its tables, columns and the index, from
-- whichever version it came; or it returns an error, hands out no store and has closed the connection.
-- Either way the database is in the layout of the version that it bears, so it can be opened again.
pub open-IsOpened :
    (db_path : List ℕ) (busy_timeout_ms : ℤ) (a : OpenAnswers) (s : Schema)
    → AreStepped a
    → IsLayout s
    → IsOpened (outbox_store_open db_path busy_timeout_ms a s)
unfolding outbox_store_open
open-IsOpened db_path busy_timeout_ms a s steps h =
    if_both IsOpened ((length db_path == 0) || ltb_ℤ busy_timeout_ms (pos 0)) _ _
      (λ e. give_up-IsOpened invalid_argument s (λ k. absurd cc) h)
      (λ e.
        if_both IsOpened (not a.has_memory) _ _
          (λ f. give_up-IsOpened no_memory s (λ k. absurd cc) h)
          (λ f.
            if_both IsOpened (a.open_rc != sqlite_ok) _ _
              (λ g. give_up-IsOpened _ s (map_error a.open_rc (ground (arith, g))) h)
              (λ g.
                if_both IsOpened (a.busy_timeout_rc != sqlite_ok) _ _
                  (λ k. give_up-IsOpened _ s (map_error a.busy_timeout_rc (ground (arith, k))) h)
                  (λ k. keyed-IsOpened a s _ steps h))))
