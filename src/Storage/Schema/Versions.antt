-- ===== src/Storage/Schema/Versions.antt =====
-- What a database holds that bears a version, and how the scripts of modules/storage/outbox_store.c keep to it.
use edgevision_gateway.Common.{
  ℕ, ◌≤◌, ◌≡◌, ◌≢◌, refl, subst, arith, true, Option, none, some, ◌==◌, ◌!=◌, if◌then◌else◌,
  if_both,
}
use edgevision_gateway.Common.Int.{ℤ, pos, negsuc}
use edgevision_gateway.Storage.Result.{StoreResult, ok, sqlite_ok, map_sqlite_result, Query}
use edgevision_gateway.Storage.Result.Errors.{map_error}
use edgevision_gateway.Storage.Schema.{
  Schema, outbox_store_read_user_version, run_script, outbox_store_create_schema,
  outbox_store_migrate_v1_to_v2, outbox_store_migrate_v2_to_v3, outbox_store_migrate_v3_to_v4,
  Progress,
}

-- What a database holds that bears a version.
abbrev HasVersion : ℤ → Schema → Type 0
HasVersion (negsuc n) s = Unit
HasVersion (pos n) s =
    (1 ≤ n → (s.measurements ≡ true) × (s.outbox ≡ true))
    × (2 ≤ n → (s.delivery_columns ≡ true) × (s.index ≡ true))
    × (3 ≤ n → s.message_ids ≡ true)
    × (4 ≤ n → s.gateway_config ≡ true)

abbrev pub IsLayout : Schema → Type 0
IsLayout s = HasVersion s.user_version s

-- The current layout.
abbrev pub IsCurrent : Schema → Type 0
IsCurrent s =
    (s.user_version ≡ pos 4)
    × (s.measurements ≡ true)
    × (s.outbox ≡ true)
    × (s.delivery_columns ≡ true)
    × (s.index ≡ true)
    × (s.message_ids ≡ true)
    × (s.gateway_config ≡ true)

pub layout-IsCurrent : (s : Schema) → IsLayout s → s.user_version ≡ pos 4 → IsCurrent s
layout-IsCurrent s h e =
    let (tables, columns, ids, config) = subst (λ v. HasVersion v s) e h in
    let (measurements, outbox) = tables (omega arith) in
    let (delivery, index) = columns (omega arith) in
    (e, measurements, outbox, delivery, index, ids (omega arith), config (omega arith))

abbrev pub Keeps : ℕ → (ℕ → Schema → StoreResult × Schema) → Type 0
Keeps n script =
    (rc : ℕ) (s : Schema) → IsLayout s → s.user_version ≡ pos n → IsLayout (script rc s).1

run_script-Keeps :
    (effect : Schema → Schema) (n : ℕ)
    → ((s : Schema) → HasVersion (pos n) s → IsLayout (effect s))
    → Keeps n (run_script effect)
unfolding run_script
run_script-Keeps effect n h rc s v e =
    if_both (λ (x : StoreResult × Schema). IsLayout x.1) (rc == sqlite_ok) _ _
      (λ k. h s (subst (λ u. HasVersion u s) e v)) (λ k. v)

pub create-Keeps : Keeps 0 outbox_store_create_schema
unfolding outbox_store_create_schema
create-Keeps =
    run_script-Keeps _ 0
      (λ s h. ((λ k. (refl, refl)), (λ k. (refl, refl)), (λ k. refl), (λ k. refl)))

pub migrate_v1-Keeps : Keeps 1 outbox_store_migrate_v1_to_v2
unfolding outbox_store_migrate_v1_to_v2
migrate_v1-Keeps = run_script-Keeps _ 1 (λ s h. (
  (λ k. h.0 (omega arith)),
  (λ k. (refl, refl)),
  (λ k. absurd (omega (arith, k))),
  (λ k. absurd (omega (arith, k))),
))

pub migrate_v2-Keeps : Keeps 2 outbox_store_migrate_v2_to_v3
unfolding outbox_store_migrate_v2_to_v3
migrate_v2-Keeps = run_script-Keeps _ 2 (λ s h. (
  (λ k. ((h.0 (omega arith)).0, refl)),
  (λ k. (refl, refl)),
  (λ k. refl),
  (λ k. absurd (omega (arith, k))),
))

pub migrate_v3-Keeps : Keeps 3 outbox_store_migrate_v3_to_v4
unfolding outbox_store_migrate_v3_to_v4
migrate_v3-Keeps = run_script-Keeps _ 3 (λ s h.
    ((λ k. h.0 (omega arith)), (λ k. h.1 (omega arith)), (λ k. h.2 (omega arith)), (λ k. refl)))

-- sqlite3_step never returns SQLITE_OK.
abbrev pub IsStepped : Query → Type 0
IsStepped q = q.step_error ≢ some sqlite_ok

-- The version that was read is the one in the database.
abbrev pub IsRead : Schema → StoreResult × ℤ → Type 0
IsRead s (r, version) = r ≡ ok → version ≡ s.user_version

pub user_version-IsRead :
    (q : Query) (s : Schema) → IsStepped q → IsRead s (outbox_store_read_user_version q s)
unfolding outbox_store_read_user_version
user_version-IsRead q s never =
    if_both (IsRead s) (q.prepare != sqlite_ok) _ _
      (λ h e. absurd (map_error q.prepare (ground (arith, h)) e)) (λ h. behind q.step_error never)
  where
    behind :
        (o : Option ℕ)
        → o ≢ some sqlite_ok
        → IsRead s (elim o [
          | some rc ↦ (map_sqlite_result rc, pos 0)
          | none ↦
              if q.finalize != sqlite_ok
              then (map_sqlite_result q.finalize, pos 0)
              else (ok, s.user_version)
        ])
    behind (some rc) never = λ e. absurd (map_error rc (ground (arith, never)) e)
    behind none never =
        if_both (IsRead s) (q.finalize != sqlite_ok) _ _
          (λ h e. absurd (map_error q.finalize (ground (arith, h)) e)) (λ h e. refl)

abbrev pub IsProgress : Progress → Type 0
IsProgress (r, version, s) = IsLayout s × (r ≡ ok → version ≡ s.user_version)
