-- ===== src/Source.antt =====
-- modules/source and core/measurement_source.c: where measurements come from.
pub mod Stm32
pub mod Simulated
pub mod RealSerial
use edgevision_gateway.Common.{ℕ, Bool, Option, none, some, List, [], ◌∷◌, if◌then◌else◌}

-- MEASUREMENT_SOURCE_OK, with what is written to `output`, MEASUREMENT_SOURCE_NO_DATA and
-- MEASUREMENT_SOURCE_ERROR.
pub data SourceResult (A : Type 0) : Type 0 where
  ok : A → SourceResult A
  no_data error : SourceResult A

-- "temperature" and "celsius".
abbrev pub temperature : List ℕ
temperature = 116 ∷ 101 ∷ 109 ∷ 112 ∷ 101 ∷ 114 ∷ 97 ∷ 116 ∷ 117 ∷ 114 ∷ 101 ∷ []

abbrev pub celsius : List ℕ
celsius = 99 ∷ 101 ∷ 108 ∷ 115 ∷ 105 ∷ 117 ∷ 115 ∷ []

-- measurement_source_next of core/measurement_source.c. `next` is the function of the source, if
-- there is one, and maps its state to the result; `non_null` says that both pointers are there.
pub measurement_source_next :
    {A S : Type 0} → Bool → Option (S → SourceResult A × S) → S → SourceResult A × S
measurement_source_next non_null none source = (error, source)
measurement_source_next non_null (some next) source =
    if non_null then next source else (error, source)
