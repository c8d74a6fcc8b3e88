-- ===== src/Tenancy/Forms.antt =====
-- The forms of the values that a lookup scope puts into its setting (core/tenancy.py).
use review_flow.Base.{Bool, ◌&&◌, ◌||◌, ℕ, leb, ◌==◌, String, List, [], ◌∷◌, if◌then◌else◌}
use review_flow.Base.Text.{codes, matches, is_digit, is_word_char}

-- `is_valid_billing_ref`, of a text.
unfoldable pub is_valid_billing_ref : String → Bool
is_valid_billing_ref ref = matches is_word_char 1 64 (codes ref)

-- `is_valid_phone_number_id`, of a text.
unfoldable pub is_valid_phone_number_id : String → Bool
is_valid_phone_number_id value = matches is_digit 1 64 (codes value)

abbrev is_hex_digit : ℕ → Bool
is_hex_digit c = is_digit c || leb b'a' c && leb c b'f'

-- `$` also matches before a newline at the end.
abbrev pub before_newline : List ℕ → List ℕ
before_newline [] = []
before_newline (c ∷ []) = if c == 10 then [] else c ∷ []
before_newline (c ∷ d ∷ cs) = c ∷ before_newline (d ∷ cs)

-- `_HEX64.match(key_hash)`, of the code points.
unfoldable pub is_key_hash : List ℕ → Bool
is_key_hash cs = matches is_hex_digit 64 64 cs || matches is_hex_digit 64 64 (before_newline cs)
