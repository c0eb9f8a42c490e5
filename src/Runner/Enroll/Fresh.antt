-- ===== src/Runner/Enroll/Fresh.antt =====
-- Which token `reenroll` comes back with.
use sentnodes_agent.Base.{Bool, true, false, Option, none, some, List, [], ◌∷◌, ◌≡◌, ◌⊎◌}
use sentnodes_agent.Api.{answer, RegisterReq}
use sentnodes_agent.Base.Got.{Got}
use sentnodes_agent.Base.Text.{Text}
use sentnodes_agent.Runner.Enroll.{
  Writing, write_works, write_fails, Try, Settings, Agent, EnrollError,
}

-- The server has given the token in answer to a registration of the attempt.
pub record IsGrantedBy (t : Try) (token : Text) : Type 0 where
  pub api_key : Text
  pub req : RegisterReq
  pub granted : t.register api_key req ≡ answer token

-- It has so in one of the attempts.
abbrev pub IsGranted : Try → List Try → Text → Type 0
IsGranted t [] token = IsGrantedBy t token
IsGranted t (u ∷ ts) token = IsGrantedBy t token ⊎ IsGranted u ts token

-- A write that fails leaves no file where there was none.
abbrev pub LeavesNone : Writing → Type 0
LeavesNone write_works = Unit
LeavesNone (write_fails e left) = left ≡ none

abbrev Fresh : Try → Agent × Option EnrollError → Type 0
Fresh t (b, none) = IsGrantedBy t b.token
Fresh t (b, some e) = b.file ≡ none

-- An enrollment that ends has a token of one of its attempts.
abbrev Ended : Try → List Try → Agent × Bool → Type 0
Ended t ts (b, true) = IsGranted t ts b.token
Ended t ts (b, false) = Unit

module _ (s : Settings) where
  granted :
      (t : Try) (ts : List Try) (r : Agent × Bool)
      → r.1 ≡ true
      → Ended t ts r
      → IsGranted t ts r.0.token
  granted t ts (b, true) h g = g
  granted t ts (b, false) h g = cc
