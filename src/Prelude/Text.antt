-- ===== src/Prelude/Text.antt =====
-- Texts, where the program looks at their characters.
use Prim.Native.Nat.{ℕ, ◌+◌}
use Prim.Native.Char.{Char, code}
use Prim.Native.String.{String}
use mathlib.Core.Bool.{Bool, ◌&&◌}
use mathlib.Core.List.{List, [], ◌∷◌}
use gaussian_os.Prelude.Tests.{leb, nat_beq, if◌then◌else◌}
use gaussian_os.Prelude.Lists.{length, any}

-- The code points of a text.
abbrev pub codes : String → List ℕ
codes String.[] = []
codes (String.◌∷◌ c s) = code c ∷ codes s

-- len(text)
abbrev pub text_length : String → ℕ
text_length s = length (codes s)

-- character in text
abbrev pub has_char : ℕ → String → Bool
has_char c s = any (nat_beq c) (codes s)

abbrev pub is_digit : ℕ → Bool
is_digit c = leb b'0' c && leb c b'9'

abbrev pub is_lower : ℕ → Bool
is_lower c = leb b'a' c && leb c b'z'

abbrev pub is_upper : ℕ → Bool
is_upper c = leb b'A' c && leb c b'Z'

-- One character of str.casefold on ASCII text.
abbrev pub to_lower : ℕ → ℕ
to_lower c = if is_upper c then c + 32 else c

-- A character put before the first part of a split text.
abbrev pub push_char : Char → List String → List String
push_char c [] = (String.◌∷◌ c String.[]) ∷ []
push_char c (p ∷ ps) = (String.◌∷◌ c p) ∷ ps

-- value.split("/")
unfoldable pub split_slash : String → List String
split_slash String.[] = "" ∷ []
split_slash (String.◌∷◌ c s) =
    let rest = split_slash s in if nat_beq (code c) b'/' then "" ∷ rest else push_char c rest
