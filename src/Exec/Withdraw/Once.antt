-- ===== src/Exec/Withdraw/Once.antt =====
-- The log of withdrawals: a key that is recorded is not paid again.
use sentnodes_agent.Base.{
  ℕ, Bool, true, false, Option, none, some, List, [], ◌∷◌, ◌≡◌, refl, ap, ◌∙◌, arith,
}
use sentnodes_agent.Base.Got.{Got, got, failed}
use sentnodes_agent.Base.Text.{Text, is_empty}
use sentnodes_agent.Chain.{build_signed_send}
use sentnodes_agent.Config.{Config}
use sentnodes_agent.Exec.Withdraw.{
  Checked, send_amount, refuse, lookup_withdraw, record_withdraw, Answers, Outcome, withdrawal,
  finish_withdraw, send_withdraw, act_on, check_withdraw, open_withdraw, settle_amount, compute_fee,
}
use sentnodes_agent.Float.{Floats}
use sentnodes_agent.Keys.{Account}
use sentnodes_agent.Protobuf.{Bytes}
use sentnodes_agent.Exec.Withdraw.Log.{AreLines, IsWord, text_of, lookup_withdraw-record_withdraw}

-- An outcome without an error has recorded its hash.
abbrev pub Records : Option Text → Text → Outcome → Type 0
Records log key o = o.error ≡ none → o.log ≡ some (record_withdraw log key o.hash)

module _ (cfg : Config) (ans : Answers) (log : Option Text) (key : Text)
    (rec : ans.recorded ≡ true) where
  finish_withdraw-Records :
      (tx : Bytes) (r : Text × Option Text) → Records log key (finish_withdraw ans log key tx r)
  unfolding finish_withdraw
  finish_withdraw-Records tx (h, none) e = rw rec refl
  finish_withdraw-Records tx (h, some x) e = absurd (ground arith)

  send_withdraw-Records :
      (signer : Account) (x fee : ℕ) (a : Got (ℕ × ℕ))
      → Records log key (send_withdraw cfg ans log key signer x fee a)
  unfolding send_withdraw
  send_withdraw-Records signer x fee (failed e) n = absurd (ground arith)
  send_withdraw-Records signer x fee (got (number, sequence)) n =
      let tx : Bytes = build_signed_send signer (withdrawal cfg x fee number sequence) in
      finish_withdraw-Records tx (ans.broadcast tx) n

  act_on-Records :
      (signer : Account) (fee : ℕ) (ck : Checked)
      → Records log key (act_on cfg ans log key signer fee ck)
  act_on-Records signer fee (refuse e) n = absurd (ground arith)
  act_on-Records signer fee (send_amount x) n = send_withdraw-Records signer x fee ans.account n

  check_withdraw-Records :
      (signer : Account) (all : Bool) (asked fee : ℕ) (r : Got ℕ)
      → Records log key (check_withdraw cfg ans log key signer all asked fee r)
  unfolding check_withdraw
  check_withdraw-Records signer all asked fee (failed e) n = absurd (ground arith)
  check_withdraw-Records signer all asked fee (got bal) n =
      act_on-Records signer fee
        (settle_amount all asked bal fee cfg.withdraw_min cfg.withdraw_reserve) n

  pub open_withdraw-Records :
      (fl : Floats) (all : Bool) (asked : ℕ) (r : Got Account)
      → Records log key (open_withdraw fl cfg ans log key all asked r)
  unfolding open_withdraw
  open_withdraw-Records fl all asked (failed e) n = absurd (ground arith)
  open_withdraw-Records fl all asked (got signer) n =
      check_withdraw-Records signer all asked (compute_fee fl cfg.gas cfg.gas_prices) ans.balance n

pub is_empty-nil : (t : Text) → is_empty t ≡ true → t ≡ []
is_empty-nil [] e = refl
is_empty-nil (c ∷ t) e = absurd (ground arith)

pub is_empty-word : (t : Text) → IsWord t → is_empty t ≡ false
is_empty-word [] h = absurd (omega (arith, h.1))
is_empty-word (c ∷ t) h = refl

-- A call that succeeds leaves a log in which its key has its hash, with withdrawals enabled.
abbrev Settles : Config → Text → Outcome → Type 0
Settles cfg key o =
    o.error ≡ none
    → IsWord o.hash
    → (is_empty cfg.withdraw_addr ≡ false) × (lookup_withdraw o.log key ≡ o.hash)

module _ (fl : Floats) (cfg : Config) (key : Text) where
  module _ (ans : Answers) (rec : ans.recorded ≡ true) (k : IsWord key) (ls : Option (List Text))
      (a : AreLines ls) where
    pub open_withdraw-Settles :
        (asked : ℕ) (all : Bool)
        → is_empty cfg.withdraw_addr ≡ false
        → lookup_withdraw (text_of ls) key ≡ []
        → Settles cfg key (open_withdraw fl cfg ans (text_of ls) key all asked ans.key)
    open_withdraw-Settles asked all set new e h =
        let o : Outcome = open_withdraw fl cfg ans (text_of ls) key all asked ans.key in
        let wrote : o.log ≡ some (record_withdraw (text_of ls) key o.hash) =
          open_withdraw-Records cfg ans (text_of ls) key rec fl all asked ans.key e in
        (
          set,
          ap (λ log. lookup_withdraw log key) wrote
              ∙ lookup_withdraw-record_withdraw key o.hash k h ls a new,
        )
