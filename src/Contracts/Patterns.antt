-- ===== src/Contracts/Patterns.antt =====
-- The patterns and text checks at the top of packages/plugin_sdk/contracts.py. `fullmatch` of a
-- pattern is a walk over the code points; a bounded repetition is a bound on the length.
use gaussian_os.Prelude.{
  ℕ, String, Bool, ◌&&◌, ◌||◌, not, true, false, ◌≡◌, refl, List, [], ◌∷◌, map, ◌==◌, ℕ_eq, list_eq,
  leb, codes, is_digit, is_lower, is_upper, to_lower, all, length, contains, has_char,
}

unfoldable pub is_hex : ℕ → Bool
is_hex c = is_digit c || (leb b'a' c && leb c b'f')

-- SHA256_PATTERN
unfoldable pub is_sha256 : String → Bool
unfolding is_hex
is_sha256 value = all is_hex (codes value) && length (codes value) == 64

-- COMMIT_PATTERN
unfoldable pub is_commit : String → Bool
unfolding is_hex
is_commit value = all is_hex (codes value) && length (codes value) == 40

unfoldable pub is_identifier_start : ℕ → Bool
is_identifier_start c = is_lower c || is_digit c

unfoldable pub is_identifier_char : ℕ → Bool
unfolding is_identifier_start
is_identifier_char c = is_identifier_start c || c == b'.' || c == b'_' || c == b'-'

unfoldable pub matches_identifier : List ℕ → Bool
unfolding is_identifier_start is_identifier_char
matches_identifier [] = false
matches_identifier (c ∷ cs) =
    is_identifier_start c && all is_identifier_char cs && leb (length cs) 127

-- IDENTIFIER_PATTERN, `_validate_identifier`
unfoldable pub is_identifier : String → Bool
unfolding matches_identifier
is_identifier value = matches_identifier (codes value)

unfoldable pub is_version_start : ℕ → Bool
is_version_start c = is_digit c || is_upper c || is_lower c

unfoldable pub is_version_char : ℕ → Bool
unfolding is_version_start
is_version_char c = is_version_start c || c == b'.' || c == b'_' || c == b'+' || c == b'-'

-- VERSION_PATTERN
unfoldable pub matches_version : List ℕ → Bool
unfolding is_version_start is_version_char
matches_version [] = false
matches_version (c ∷ cs) = is_version_start c && all is_version_char cs && leb (length cs) 63

-- MOVING_VERSION_NAMES
abbrev pub moving_version_names : List String
moving_version_names = "dev" ∷ "head" ∷ "latest" ∷ "main" ∷ "master" ∷ "nightly" ∷ []

-- `_validate_exact_version`. The text that reaches `casefold` has matched the pattern, so it is ASCII.
unfoldable pub is_exact_version : String → Bool
unfolding matches_version
is_exact_version value =
    matches_version (codes value)
    && not (contains (map to_lower (codes value)) (map codes moving_version_names))
    && not (has_char b'*' value)

version_names :
    (is_exact_version "1.4.0+cu128" ≡ true)
    × (is_exact_version "Nightly" ≡ false)
    × (is_exact_version "v1.*" ≡ false)
unfolding is_exact_version
version_names = (refl, refl, refl)

identifiers :
    (is_identifier "train_gsplat-1.0" ≡ true)
    × (is_identifier ".hidden" ≡ false)
    × (is_identifier "a..b" ≡ true)
unfolding is_identifier
identifiers = (refl, refl, refl)
