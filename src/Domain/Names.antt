-- ===== src/Domain/Names.antt =====
-- The regular expressions `_IDENTIFIER` and `_SHA256` of domain/state_machine.py, over code points.
use cross_patch.Prelude.{
  ℕ, String, Bool, false, ◌&&◌, ◌||◌, List, [], ◌∷◌, leb, ◌==◌, length, all, codes,
}

abbrev is_digit : ℕ → Bool
is_digit c = leb b'0' c && leb c b'9'

abbrev pub is_alnum : ℕ → Bool
is_alnum c = (leb b'A' c && leb c b'Z') || (leb b'a' c && leb c b'z') || is_digit c

-- [A-Za-z0-9._:-]
abbrev is_name_char : ℕ → Bool
is_name_char c = is_alnum c || c == b'.' || c == b'_' || c == b':' || c == b'-'

-- [0-9a-f]
abbrev is_hex : ℕ → Bool
is_hex c = is_digit c || (leb b'a' c && leb c b'f')

identifier_codes : List ℕ → Bool
identifier_codes [] = false
identifier_codes (c ∷ rest) = is_alnum c && all is_name_char rest && leb (length rest) 127

-- [A-Za-z0-9][A-Za-z0-9._:-]{0,127}\Z
unfoldable pub is_identifier : String → Bool
unfolding identifier_codes
is_identifier s = identifier_codes (codes s)

-- [0-9a-f]{64}\Z
unfoldable pub is_sha256 : String → Bool
is_sha256 s = let cs = codes s in all is_hex cs && length cs == 64
