-- ===== src/Runner/Enroll/Eventually.antt =====
-- The loop of `ensureEnrolled`: it ends once an attempt can succeed.
use sentnodes_agent.Base.{
  Bool, true, false, Option, none, some, List, [], ◌∷◌, ◌≡◌, ◌⊎◌, inl, inr, refl, Bool-cases,
}
use sentnodes_agent.Api.{answer}
use sentnodes_agent.Base.Got.{got}
use sentnodes_agent.Base.Text.{Text, equal, is_empty}
use sentnodes_agent.Keys.{Account}
use sentnodes_agent.Runner.Enroll.{
  write_works, Try, Settings, Agent, EnrollError, register_req, register_anew, adopt, enroll,
  or_again, ensure_enrolled,
}
use sentnodes_agent.Runner.State.{read_state}

-- An attempt in which nothing goes wrong: the key opens, the server answers both calls, and the write
-- works.
pub record IsGood (s : Settings) (t : Try) : Type 0 where
  pub signer : Account
  pub nonce : Text
  pub token : Text
  pub opens : t.key ≡ got signer
  pub challenged : t.challenge signer.node_addr s.cfg.api_key ≡ answer nonce
  pub registered : t.register s.cfg.api_key (register_req s signer nonce) ≡ answer token
  pub writes : t.write ≡ write_works

-- One of the attempts is good.
abbrev pub SomeGood : Settings → Try → List Try → Type 0
SomeGood s t [] = IsGood s t
SomeGood s t (u ∷ ts) = IsGood s t ⊎ SomeGood s u ts

module _ (s : Settings) where
  register_anew-works : (t : Try) (a : Agent) → IsGood s t → (register_anew s t a).1 ≡ none
  unfolding register_anew
  register_anew-works t a g = rw (g.opens, g.challenged, g.registered, g.writes) refl

  adopt-works :
      (t : Try) (a : Agent) (addr token : Text) → IsGood s t → (adopt s t a addr token).1 ≡ none
  unfolding adopt
  adopt-works t a addr token g = elim (Bool-cases (is_empty token)) [
    | inl unset ↦ rw unset (register_anew-works t a g)
    | inr stored ↦ elim (Bool-cases (is_empty addr)) [
      | inl legacy ↦ rw (stored, legacy) refl
      | inr bound ↦ elim (Bool-cases (equal addr a.id.node_addr)) [
        | inl ours ↦ rw (stored, bound, ours) refl
        | inr other ↦ rw (stored, bound, other) (register_anew-works t a g)
      ]
    ]
  ]

  enroll-works : (t : Try) (a : Agent) → IsGood s t → (enroll s t a).1 ≡ none
  unfolding enroll
  enroll-works t a g = adopt-works t a (read_state a.file).0 (read_state a.file).1 g

  or_again-works :
      (again : Agent → Agent × Bool) (r : Agent × Option EnrollError)
      → r.1 ≡ none
      → (or_again again r).1 ≡ true
  or_again-works again (a, none) h = refl
  or_again-works again (a, some e) h = cc

  or_again-flag :
      (again : Agent → Agent × Bool) (r : Agent × Option EnrollError)
      → ((b : Agent) → (again b).1 ≡ true)
      → (or_again again r).1 ≡ true
  or_again-flag again (a, none) h = refl
  or_again-flag again (a, some e) h = h a

  pub ensure_enrolled-works :
      (t : Try) (ts : List Try) (a : Agent) → SomeGood s t ts → (ensure_enrolled s t ts a).1 ≡ true
  unfolding ensure_enrolled
  ensure_enrolled-works t [] a g =
      or_again-works (λ b. (b, false)) (enroll s t a) (enroll-works t a g)
  ensure_enrolled-works t (u ∷ ts) a (inl g) =
      or_again-works (λ b. ensure_enrolled s u ts b) (enroll s t a) (enroll-works t a g)
  ensure_enrolled-works t (u ∷ ts) a (inr g) =
      or_again-flag (λ b. ensure_enrolled s u ts b) (enroll s t a)
        (λ b. ensure_enrolled-works u ts b g)
