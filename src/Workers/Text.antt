-- ===== src/Workers/Text.antt =====
-- The commands of core/gateway_workers.c and the words of its answers, as the bytes of C strings.
use edgevision_gateway.Common.{ℕ, List, [], ◌∷◌}

abbrev pub status_text : List ℕ
status_text = 115 ∷ 116 ∷ 97 ∷ 116 ∷ 117 ∷ 115 ∷ []

abbrev pub set_interval_text : List ℕ
set_interval_text = 115 ∷ 101 ∷ 116 ∷ 95 ∷ 105 ∷ 110 ∷ 116 ∷ 101 ∷ 114 ∷ 118 ∷ 97 ∷ 108 ∷ []

abbrev pub set_interval_prefix : List ℕ
set_interval_prefix = 115 ∷ 101 ∷ 116 ∷ 95 ∷ 105 ∷ 110 ∷ 116 ∷ 101 ∷ 114 ∷ 118 ∷ 97 ∷ 108 ∷ 32 ∷ []

abbrev pub get_config_text : List ℕ
get_config_text = 103 ∷ 101 ∷ 116 ∷ 95 ∷ 99 ∷ 111 ∷ 110 ∷ 102 ∷ 105 ∷ 103 ∷ []

abbrev pub pause_text : List ℕ
pause_text =
    112 ∷ 97 ∷ 117 ∷ 115 ∷ 101 ∷ 95 ∷ 99 ∷ 111 ∷ 108 ∷ 108 ∷ 101 ∷ 99 ∷ 116 ∷ 105 ∷ 111 ∷ 110 ∷ []

abbrev pub resume_text : List ℕ
resume_text =
    114 ∷ 101 ∷ 115 ∷ 117 ∷ 109 ∷ 101 ∷ 95 ∷ 99 ∷ 111 ∷ 108 ∷ 108 ∷ 101 ∷ 99 ∷ 116 ∷ 105 ∷ 111 ∷ 110
    ∷ []

abbrev pub stats_text : List ℕ
stats_text =
    103 ∷ 101 ∷ 116 ∷ 95 ∷ 115 ∷ 116 ∷ 111 ∷ 114 ∷ 97 ∷ 103 ∷ 101 ∷ 95 ∷ 115 ∷ 116 ∷ 97 ∷ 116 ∷ 115
    ∷ []

abbrev pub version_text : List ℕ
version_text = 103 ∷ 101 ∷ 116 ∷ 95 ∷ 118 ∷ 101 ∷ 114 ∷ 115 ∷ 105 ∷ 111 ∷ 110 ∷ []

abbrev pub ok_word : List ℕ
ok_word = 111 ∷ 107 ∷ []

abbrev pub error_word : List ℕ
error_word = 101 ∷ 114 ∷ 114 ∷ 111 ∷ 114 ∷ []

abbrev pub result_word : List ℕ
result_word = 114 ∷ 101 ∷ 115 ∷ 117 ∷ 108 ∷ 116 ∷ []

abbrev pub error_prefix : List ℕ
error_prefix = 101 ∷ 114 ∷ 114 ∷ 111 ∷ 114 ∷ 61 ∷ []

abbrev pub invalid_command : List ℕ
invalid_command =
    105 ∷ 110 ∷ 118 ∷ 97 ∷ 108 ∷ 105 ∷ 100 ∷ 95 ∷ 99 ∷ 111 ∷ 109 ∷ 109 ∷ 97 ∷ 110 ∷ 100 ∷ []

abbrev pub unsupported_command : List ℕ
unsupported_command =
    117 ∷ 110 ∷ 115 ∷ 117 ∷ 112 ∷ 112 ∷ 111 ∷ 114 ∷ 116 ∷ 101 ∷ 100 ∷ 95 ∷ 99 ∷ 111 ∷ 109 ∷ 109 ∷ 97
    ∷ 110 ∷ 100 ∷ []

abbrev pub id_conflict : List ℕ
id_conflict =
    114 ∷ 101 ∷ 113 ∷ 117 ∷ 101 ∷ 115 ∷ 116 ∷ 95 ∷ 105 ∷ 100 ∷ 95 ∷ 99 ∷ 111 ∷ 110 ∷ 102 ∷ 108 ∷ 105
    ∷ 99 ∷ 116 ∷ []
