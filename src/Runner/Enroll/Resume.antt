-- ===== src/Runner/Enroll/Resume.antt =====
-- What an enrollment leaves on disk, and what it asks the server for.
use sentnodes_agent.Base.{
  Bool, true, false, Option, none, some, List, [], ◌∷◌, ◌++◌, length, All, ◌≤◌, ◌≡◌, inl, inr, refl,
  sym, ap, ◌∙◌, arith, Bool-cases,
}
use mathlib.Core.Path.{subst}
use sentnodes_agent.Api.{ApiResult, answer, error, RegisterReq}
use sentnodes_agent.Base.Got.{Got, got, failed}
use sentnodes_agent.Base.Text.{Text, equal, is_empty}
use sentnodes_agent.Base.Text.Laws.{IsGraphic, equal_iff, equal_refl}
use sentnodes_agent.Keys.{Identity, Account}
use sentnodes_agent.Runner.Enroll.{
  write_works, Try, Settings, Agent, EnrollError, register_req, after_register, after_challenge,
  with_signer, register_anew, adopt, enroll, or_again, ensure_enrolled,
}
use sentnodes_agent.Runner.State.{read_state, write_state, read_state-write_state}

-- Visible text that is not empty.
pub record IsVisible (t : Text) : Type 0 where
  pub graphic : All IsGraphic t
  pub filled : 1 ≤ length t

is_empty-filled : (t : Text) → 1 ≤ length t → is_empty t ≡ false
is_empty-filled [] h = absurd (omega arith)
is_empty-filled (c ∷ t) h = refl

filled-is_empty : (t : Text) → is_empty t ≡ false → 1 ≤ length t
filled-is_empty [] h = absurd (ground (arith, h))
filled-is_empty (c ∷ t) h = omega arith

-- The state file binds the token in use to the address of the node.
pub record IsOnDisk (a : Agent) : Type 0 where
  pub reads : read_state a.file ≡ (a.id.node_addr, a.token)
  pub token_filled : is_empty a.token ≡ false
  pub addr_filled : is_empty a.id.node_addr ≡ false

-- An attempt in which the key is that of the identity, the write works, and a token that the server
-- gives is visible text.
pub record IsSound (id : Identity) (t : Try) : Type 0 where
  pub same_key : (signer : Account) → t.key ≡ got signer → signer.node_addr ≡ id.node_addr
  pub visible_tokens :
      (key : Text) (req : RegisterReq) (token : Text)
      → t.register key req ≡ answer token
      → IsVisible token
  pub writes : t.write ≡ write_works

-- What an attempt leaves: with an error the file and the identity as they were, without one the token
-- on disk.
abbrev Leaves : Agent → Agent × Option EnrollError → Type 0
Leaves a (b, none) = (b.id ≡ a.id) × IsOnDisk b
Leaves a (b, some e) = (b.id ≡ a.id) × (b.file ≡ a.file)

own-IsOnDisk :
    (a : Agent) (token : Text)
    → IsVisible a.id.node_addr
    → IsVisible token
    → IsOnDisk (record a { file = some (write_state a.id.node_addr token); token = token })
own-IsOnDisk a token addr v = record {
  reads = read_state-write_state a.id.node_addr token addr.graphic v.graphic addr.filled v.filled;
  token_filled = is_empty-filled token v.filled;
  addr_filled = is_empty-filled a.id.node_addr addr.filled;
}

module _ (s : Settings) (t : Try) (id : Identity) (sound : IsSound id t)
    (addr : IsVisible id.node_addr) where
  written-IsOnDisk :
      (a : Agent) (token : Text)
      → a.id ≡ id
      → IsVisible token
      → IsOnDisk (record a { file = some (write_state id.node_addr token); token = token })
  written-IsOnDisk a token same v = record {
    reads =
        read_state-write_state id.node_addr token addr.graphic v.graphic addr.filled v.filled
        ∙ ap (λ (i : Identity). (i.node_addr, token)) (sym same);
    token_filled = is_empty-filled token v.filled;
    addr_filled =
        ap (λ (i : Identity). is_empty i.node_addr) same ∙ is_empty-filled id.node_addr addr.filled;
  }

  after_register-Leaves :
      (a : Agent) (signer : Account) (req : RegisterReq) (r : ApiResult Text)
      → a.id ≡ id
      → signer.node_addr ≡ id.node_addr
      → t.register s.cfg.api_key req ≡ r
      → Leaves a (after_register s t a signer r)
  after_register-Leaves a signer req (error e) same key h = (refl, refl)
  after_register-Leaves a signer req (answer token) same key h =
      rw (sound.writes, key)
        (refl, written-IsOnDisk a token same (sound.visible_tokens _ req token h))

  after_challenge-Leaves :
      (a : Agent) (signer : Account) (r : ApiResult Text)
      → a.id ≡ id
      → signer.node_addr ≡ id.node_addr
      → Leaves a (after_challenge s t a signer r)
  after_challenge-Leaves a signer (error e) same key = (refl, refl)
  after_challenge-Leaves a signer (answer nonce) same key =
      let req = register_req s signer nonce in
      after_register-Leaves (record a { asked = a.asked ++ req ∷ [] }) signer req _ same key refl

  with_signer-Leaves :
      (a : Agent) (r : Got Account) → a.id ≡ id → t.key ≡ r → Leaves a (with_signer s t a r)
  with_signer-Leaves a (failed e) same h = (refl, refl)
  with_signer-Leaves a (got signer) same h =
      after_challenge-Leaves a signer _ same (sound.same_key signer h)

  adopt-Leaves :
      (a : Agent) (where_from token : Text)
      → a.id ≡ id
      → All IsGraphic token
      → read_state a.file ≡ (where_from, token)
      → Leaves a (adopt s t a where_from token)
  unfolding adopt register_anew
  adopt-Leaves a where_from token same g h = elim (Bool-cases (is_empty token)) [
    | inl unset ↦ rw unset (with_signer-Leaves a t.key same refl)
    | inr stored ↦
        let v : IsVisible token = record { graphic = g; filled = filled-is_empty token stored } in
        elim (Bool-cases (is_empty where_from)) [
          | inl legacy ↦
              let own : IsVisible a.id.node_addr =
                subst (λ (i : Identity). IsVisible i.node_addr) (sym same) addr in
              rw (stored, legacy, sound.writes) (refl, own-IsOnDisk a token own v)
          | inr bound ↦ elim (Bool-cases (equal where_from a.id.node_addr)) [
            | inl ours ↦
                let e = (equal_iff where_from a.id.node_addr).0 ours in
                rw (stored, bound, ours)
                  (
                    refl,
                    record {
                      reads = h ∙ ap (λ x. (x, token)) e;
                      token_filled = stored;
                      addr_filled = ap is_empty (sym e) ∙ bound;
                    },
                  )
            | inr other ↦ rw (stored, bound, other) (with_signer-Leaves a t.key same refl)
          ]
        ]
  ]

  enroll-Leaves :
      (a : Agent) → a.id ≡ id → All IsGraphic (read_state a.file).1 → Leaves a (enroll s t a)
  unfolding enroll
  enroll-Leaves a same g = adopt-Leaves a (read_state a.file).0 (read_state a.file).1 same g refl

-- A restart forgets the token and reads the state file.
abbrev pub restarted : Agent → Agent
restarted a = record a { token = [] }

pub enroll-IsOnDisk :
    (s : Settings) (u : Try) (a : Agent) → IsOnDisk a → enroll s u (restarted a) ≡ (a, none)
unfolding enroll adopt
enroll-IsOnDisk s u a d =
    rw (d.reads, d.token_filled, d.addr_filled, equal_refl a.id.node_addr) refl

module _ (s : Settings) (id : Identity) (addr : IsVisible id.node_addr) where
  abbrev AllSound : Try → List Try → Type 0
  AllSound t ts = IsSound id t × All (IsSound id) ts

  -- An enrollment that ends has its token on disk.
  abbrev Ended : Agent × Bool → Type 0
  Ended (b, true) = (b.id ≡ id) × IsOnDisk b
  Ended (b, false) = Unit

  or_again-Ended :
      (a : Agent) (again : Agent → Agent × Bool) (r : Agent × Option EnrollError)
      → a.id ≡ id
      → ((b : Agent) → b.id ≡ id → b.file ≡ a.file → Ended (again b))
      → Leaves a r
      → Ended (or_again again r)
  or_again-Ended a again (b, none) same go (i, d) = (i ∙ same, d)
  or_again-Ended a again (b, some e) same go (i, f) = go b (i ∙ same) f

  ensure_enrolled-Ended :
      (t : Try) (ts : List Try) (a : Agent)
      → AllSound t ts
      → a.id ≡ id
      → All IsGraphic (read_state a.file).1
      → Ended (ensure_enrolled s t ts a)
  unfolding ensure_enrolled
  ensure_enrolled-Ended t [] a (h, hs) same g =
      or_again-Ended a (λ b. (b, false)) (enroll s t a) same (λ b i f. tt)
        (enroll-Leaves s t id h addr a same g)
  ensure_enrolled-Ended t (u ∷ ts) a (h, (k, hs)) same g =
      or_again-Ended a (λ b. ensure_enrolled s u ts b) (enroll s t a) same
        (λ b i f.
          ensure_enrolled-Ended u ts b (k, hs) i
            (subst (λ x. All IsGraphic (read_state x).1) (sym f) g))
        (enroll-Leaves s t id h addr a same g)

  resumed :
      (u : Try) (r : Agent × Bool) → r.1 ≡ true → Ended r → enroll s u (restarted r.0) ≡ (r.0, none)
  resumed u (b, true) h (i, d) = enroll-IsOnDisk s u b d
  resumed u (b, false) h e = cc

  -- After an enrollment that ends, a restart with the same key resumes it: whatever the server
  -- would answer then, `enroll` succeeds with the same token, without a request and without a
  -- write. In the attempts of the enrollment the key is that of the identity, the writes work, and
  -- the tokens and the address are visible text.
  pub ensure_enrolled-resumes :
      (t : Try) (ts : List Try) (a : Agent)
      → IsSound id t × All (IsSound id) ts
      → a.id ≡ id
      → All IsGraphic (read_state a.file).1
      → (ensure_enrolled s t ts a).1 ≡ true
      → (u : Try) → let b = (ensure_enrolled s t ts a).0 in enroll s u (restarted b) ≡ (b, none)
  ensure_enrolled-resumes t ts a h same g ended u =
      resumed u (ensure_enrolled s t ts a) ended (ensure_enrolled-Ended t ts a h same g)
