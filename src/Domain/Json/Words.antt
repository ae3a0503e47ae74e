-- ===== src/Domain/Json/Words.antt =====
-- The keys of the members that domain/measurement_json.c reads and writes, and the texts of `quality`, as the
-- bytes of C strings.
use edgevision_gateway.Common.{ℕ, List, [], ◌∷◌}

abbrev pub device_id_key : List ℕ
device_id_key = 100 ∷ 101 ∷ 118 ∷ 105 ∷ 99 ∷ 101 ∷ 95 ∷ 105 ∷ 100 ∷ []

abbrev pub metric_key : List ℕ
metric_key = 109 ∷ 101 ∷ 116 ∷ 114 ∷ 105 ∷ 99 ∷ []

abbrev pub unit_key : List ℕ
unit_key = 117 ∷ 110 ∷ 105 ∷ 116 ∷ []

abbrev pub schema_version_key : List ℕ
schema_version_key =
    115 ∷ 99 ∷ 104 ∷ 101 ∷ 109 ∷ 97 ∷ 95 ∷ 118 ∷ 101 ∷ 114 ∷ 115 ∷ 105 ∷ 111 ∷ 110 ∷ []

abbrev pub sequence_key : List ℕ
sequence_key = 115 ∷ 101 ∷ 113 ∷ 117 ∷ 101 ∷ 110 ∷ 99 ∷ 101 ∷ []

abbrev pub timestamp_ms_key : List ℕ
timestamp_ms_key = 116 ∷ 105 ∷ 109 ∷ 101 ∷ 115 ∷ 116 ∷ 97 ∷ 109 ∷ 112 ∷ 95 ∷ 109 ∷ 115 ∷ []

abbrev pub value_key : List ℕ
value_key = 118 ∷ 97 ∷ 108 ∷ 117 ∷ 101 ∷ []

abbrev pub quality_key : List ℕ
quality_key = 113 ∷ 117 ∷ 97 ∷ 108 ∷ 105 ∷ 116 ∷ 121 ∷ []

abbrev pub good_text : List ℕ
good_text = 103 ∷ 111 ∷ 111 ∷ 100 ∷ []

abbrev pub uncertain_text : List ℕ
uncertain_text = 117 ∷ 110 ∷ 99 ∷ 101 ∷ 114 ∷ 116 ∷ 97 ∷ 105 ∷ 110 ∷ []

abbrev pub bad_text : List ℕ
bad_text = 98 ∷ 97 ∷ 100 ∷ []
