-- ===== src/Claim/Heuristic.antt =====
-- `heuristic_belief` of claim.py and the text functions that it uses, over code points.
use browserbench.Prelude.{
  ℕ, ◌+◌, String, Bool, true, false, ◌&&◌, ◌||◌, List, [], ◌∷◌, leb, ◌==◌, if◌then◌else◌, any, all,
}
use browserbench.Claim.Types.{Belief, sent, not_sent, unknown}
use Prim.Native.Char.{code}

abbrev pub codes : String → List ℕ
codes String.[] = []
codes (String.◌∷◌ c s) = code c ∷ codes s

-- The characters that `str.strip` takes off.
unfoldable pub is_space : ℕ → Bool
is_space c =
    leb 9 c && leb c 13
    || leb 28 c && leb c 32
    || c == 0x85
    || c == 0xa0
    || c == 0x1680
    || leb 0x2000 c && leb c 0x200a
    || c == 0x2028
    || c == 0x2029
    || c == 0x202f
    || c == 0x205f
    || c == 0x3000

-- not text.strip()
unfoldable pub is_blank : String → Bool
unfolding is_space
is_blank s = all is_space (codes s)

-- `str.lower`, as far as it can make an ASCII letter: of the letters A to Z, of the Kelvin sign and
-- of the dotted capital I. What it does to other characters no phrase below can show.
unfoldable pub lower : List ℕ → List ℕ
lower [] = []
lower (c ∷ cs) =
    if leb b'A' c && leb c b'Z'
    then (c + 32) ∷ lower cs
    else if c == 0x212a
    then b'k' ∷ lower cs
    else if c == 0x130
    then b'i' ∷ 0x307 ∷ lower cs
    else c ∷ lower cs

unfoldable pub begins : List ℕ → List ℕ → Bool
begins [] text = true
begins (p ∷ ps) [] = false
begins (p ∷ ps) (c ∷ cs) = p == c && begins ps cs

-- phrase in text
unfoldable pub occurs : List ℕ → List ℕ → Bool
unfolding begins
occurs phrase [] = begins phrase []
occurs phrase (c ∷ cs) = begins phrase (c ∷ cs) || occurs phrase cs

abbrev uncertain_phrases : List String
uncertain_phrases = "unsure" ∷ "unknown" ∷ "cannot confirm" ∷ "could not confirm" ∷ []

abbrev negative_phrases : List String
negative_phrases = "did not send" ∷ "could not send" ∷ "unable to send" ∷ "not sent" ∷ "failed" ∷ []

abbrev positive_phrases : List String
positive_phrases = "sent" ∷ "message sent" ∷ "submitted" ∷ []

unfoldable pub mentions : List String → List ℕ → Bool
unfolding occurs
mentions phrases text = any (λ phrase. occurs (codes phrase) text) phrases

unfoldable pub heuristic_belief : String → Belief
unfolding mentions lower
heuristic_belief text =
    let lowered = lower (codes text) in
    if mentions uncertain_phrases lowered
    then unknown
    else if mentions negative_phrases lowered
    then not_sent
    else if mentions positive_phrases lowered
    then sent
    else unknown
