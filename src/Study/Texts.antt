-- ===== src/Study/Texts.antt =====
-- The texts that repetition.py accepts in a plan: its regular expressions, and `strip` and `lower`.
use browserbench.Prelude.{
  ℕ, String, Bool, true, false, not, ◌&&◌, ◌||◌, List, [], ◌∷◌, str_eq, ltb, leb, ◌==◌,
  if◌then◌else◌, length, all,
}
use browserbench.Claim.{codes, is_space, lower}
use Prim.Native.Char.{code}

abbrev is_digit : ℕ → Bool
is_digit c = leb b'0' c && leb c b'9'

abbrev is_alphanumeric : ℕ → Bool
is_alphanumeric c = is_digit c || leb b'A' c && leb c b'Z' || leb b'a' c && leb c b'z'

abbrev is_name_part : ℕ → Bool
is_name_part c = is_alphanumeric c || c == b'_' || c == b'.' || c == b'-'

abbrev is_hex : ℕ → Bool
is_hex c = is_digit c || leb b'a' c && leb c b'f'

-- [A-Za-z0-9][A-Za-z0-9_.-]{0,n}
unfoldable pub is_name : ℕ → List ℕ → Bool
is_name n [] = false
is_name n (c ∷ cs) = is_alphanumeric c && all is_name_part cs && leb (length cs) n

-- _STUDY_ID_RE
abbrev pub is_study_id : String → Bool
is_study_id s = is_name 95 (codes s)

-- _RUN_ID_RE
abbrev pub is_run_id : String → Bool
is_run_id s = is_name 191 (codes s)

-- _SHA256_RE
unfoldable pub is_sha256 : String → Bool
is_sha256 s = all is_hex (codes s) && (length (codes s) == 64)

-- _GIT_COMMIT_RE
unfoldable pub is_git_commit : String → Bool
is_git_commit s = all is_hex (codes s) && (length (codes s) == 40 || length (codes s) == 64)

unfoldable pub left_strip : String → String
unfolding is_space
left_strip String.[] = String.[]
left_strip (String.◌∷◌ c s) =
    let rest = left_strip s in if is_space (code c) then rest else String.◌∷◌ c s

unfoldable pub right_strip : String → String
unfolding is_space
right_strip String.[] = String.[]
right_strip (String.◌∷◌ c s) =
    let rest = right_strip s in
    if is_space (code c) && str_eq rest "" then String.[] else String.◌∷◌ c rest

-- s.strip()
unfoldable pub strip : String → String
unfolding left_strip right_strip
strip s = right_strip (left_strip s)

-- a text that is not empty and has no space at its ends
unfoldable pub is_stripped : String → Bool
unfolding strip
is_stripped s = not (str_eq s "") && str_eq s (strip s)

abbrev providers : List String
providers = "anthropic" ∷ "deepseek" ∷ "openai" ∷ []

unfoldable pub same_codes : List ℕ → List ℕ → Bool
same_codes [] [] = true
same_codes (c ∷ cs) (d ∷ ds) = c == d && same_codes cs ds
same_codes _ _ = false

-- s.lower() where that is the name of a provider. Any other text is no provider before nor after.
unfoldable pub lower_among : List String → String → String
unfolding same_codes lower
lower_among [] s = s
lower_among (p ∷ ps) s =
    let other = lower_among ps s in if same_codes (lower (codes s)) (codes p) then p else other

unfoldable pub lower_provider : String → String
unfolding lower_among
lower_provider s = lower_among providers s

-- s < t by code points
unfoldable pub codes_lt : List ℕ → List ℕ → Bool
codes_lt cs [] = false
codes_lt [] (d ∷ ds) = true
codes_lt (c ∷ cs) (d ∷ ds) = if c == d then codes_lt cs ds else ltb c d
