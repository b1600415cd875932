-- ===== src/Claim/Types.antt =====
-- The types of claim.py.
use browserbench.Prelude.{String, Bool, true, false, Option, none, some}

pub data Belief : Type 0 where
  sent not_sent unknown malformed absent : Belief

pub data ClaimSource : Type 0 where
  structured control heuristic unparsed missing : ClaimSource

-- `unparsed` and `missing` are the sources "malformed" and "absent". Every value has the same
-- `parser_version`, which is left out.
pub record Claim : Type 0 where
  pub believes : Belief
  pub sourced_from : ClaimSource
  pub raw : String
  pub subject : Option String
  pub body : Option String

-- claim.claimed_send
unfoldable pub claimed_send : Claim → Option Bool
claimed_send c = elim c.believes [ sent ↦ some true | not_sent ↦ some false | _ ↦ none ]

-- _CANONICAL_BELIEFS
abbrev pub IsCanonical : Belief → Type 0
IsCanonical sent = Unit
IsCanonical not_sent = Unit
IsCanonical unknown = Unit
IsCanonical _ = ⊥
