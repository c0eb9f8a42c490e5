-- ===== src/Exec/Withdraw/Safe.antt =====
-- What `Withdraw` may broadcast.
use sentnodes_agent.Base.{
  IsU64, ℕ, ◌+◌, Bool, false, Option, none, some, List, [], ◌∷◌, ◌≡◌, ◌⊎◌, inl, inr, refl,
  if◌then◌else◌, Bool-cases,
}
use sentnodes_agent.Base.Got.{Got, got, failed}
use sentnodes_agent.Base.Text.{Text, is_empty}
use sentnodes_agent.Chain.{build_signed_send}
use sentnodes_agent.Config.{Config}
use sentnodes_agent.Exec.Withdraw.{
  Checked, send_amount, refuse, lookup_withdraw, Answers, withdrawal, finish_withdraw,
  send_withdraw, act_on, check_withdraw, open_withdraw, compute_fee, withdraw,
}
use sentnodes_agent.Exec.Withdraw.Guard.{IsCovered, settle_amount-IsCovered}
use sentnodes_agent.Float.{Floats}
use sentnodes_agent.Keys.{Account}
use sentnodes_agent.Protobuf.{Bytes}

-- The one transaction `tx`: signed with the operator key, to the configured address, of an amount
-- that is covered by the balance of the chain.
pub record IsWithdrawal (cfg : Config) (ans : Answers) (fee : ℕ) (all : Bool) (asked : ℕ)
    (tx : Bytes) : Type 0 where
  pub signer : Account
  pub bal : ℕ
  pub amount : ℕ
  pub number : ℕ
  pub sequence : ℕ
  pub key : ans.key ≡ got signer
  pub balance : ans.balance ≡ got bal
  pub account : ans.account ≡ got (number, sequence)
  pub to_set : is_empty cfg.withdraw_addr ≡ false
  pub chosen : if all then amount + fee + cfg.withdraw_reserve ≡ bal else amount ≡ asked
  pub covered : IsCovered amount bal fee cfg.withdraw_min cfg.withdraw_reserve
  pub same : tx ≡ build_signed_send signer (withdrawal cfg amount fee number sequence)

-- Nothing is sent, or one transaction that is a withdrawal.
abbrev pub SendsWithdrawal :
    Config → Answers → (fee : ℕ) → (all : Bool) → (asked : ℕ) → List Bytes → Type 0
SendsWithdrawal cfg ans fee all asked sent =
    (sent ≡ []) ⊎ ((tx : Bytes) × (sent ≡ tx ∷ []) × IsWithdrawal cfg ans fee all asked tx)

finish_withdraw-sent :
    (ans : Answers) (log : Option Text) (key : Text) (tx : Bytes) (r : Text × Option Text)
    → (finish_withdraw ans log key tx r).sent ≡ tx ∷ []
unfolding finish_withdraw
finish_withdraw-sent ans log key tx (h, none) = refl
finish_withdraw-sent ans log key tx (h, some e) = refl

module _ (cfg : Config) (ans : Answers) (log : Option Text) (key : Text) (all : Bool)
    (asked fee : ℕ) where
  module _ (signer : Account) (bal : ℕ) (opens : ans.key ≡ got signer) (has : ans.balance ≡ got bal)
      (set : is_empty cfg.withdraw_addr ≡ false) where
    send_withdraw-safe :
        (x : ℕ) (a : Got (ℕ × ℕ))
        → ans.account ≡ a
        → (if all then x + fee + cfg.withdraw_reserve ≡ bal else x ≡ asked)
          × IsCovered x bal fee cfg.withdraw_min cfg.withdraw_reserve
        → SendsWithdrawal cfg ans fee all asked (send_withdraw cfg ans log key signer x fee a).sent
    unfolding send_withdraw
    send_withdraw-safe x (failed e) p c = inl refl
    send_withdraw-safe x (got (number, sequence)) p c =
        let tx : Bytes = build_signed_send signer (withdrawal cfg x fee number sequence) in
        inr (
          tx,
          finish_withdraw-sent ans log key tx (ans.broadcast tx),
          record {
            signer = signer;
            bal = bal;
            amount = x;
            number = number;
            sequence = sequence;
            key = opens;
            balance = has;
            account = p;
            to_set = set;
            chosen = c.0;
            covered = c.1;
            same = refl;
          },
        )

    act_on-safe :
        (ck : Checked)
        → ((x : ℕ)
            → ck ≡ send_amount x
            → (if all then x + fee + cfg.withdraw_reserve ≡ bal else x ≡ asked)
              × IsCovered x bal fee cfg.withdraw_min cfg.withdraw_reserve)
        → SendsWithdrawal cfg ans fee all asked (act_on cfg ans log key signer fee ck).sent
    act_on-safe (refuse e) h = inl refl
    act_on-safe (send_amount x) h = send_withdraw-safe x ans.account refl (h x refl)

  check_withdraw-safe :
      (signer : Account) (r : Got ℕ)
      → ans.key ≡ got signer
      → ans.balance ≡ r
      → is_empty cfg.withdraw_addr ≡ false
      → ((bal : ℕ) → r ≡ got bal → IsU64 bal)
      → IsU64 fee
      → IsU64 asked
      → IsU64 cfg.withdraw_reserve
      → SendsWithdrawal cfg ans fee all asked
          (check_withdraw cfg ans log key signer all asked fee r).sent
  unfolding check_withdraw
  check_withdraw-safe signer (failed e) k p t b f a r = inl refl
  check_withdraw-safe signer (got bal) k p t b f a r = act_on-safe signer bal k p t _ (λ x e.
      settle_amount-IsCovered bal fee cfg.withdraw_min cfg.withdraw_reserve (b bal refl) f r all
        asked x a e)

-- The numbers of a call are uint64s.
pub record AreU64 (fl : Floats) (cfg : Config) (ans : Answers) (asked : ℕ) : Type 0 where
  pub bal_fits : (bal : ℕ) → ans.balance ≡ got bal → IsU64 bal
  pub fee_fits : IsU64 (compute_fee fl cfg.gas cfg.gas_prices)
  pub asked_fits : IsU64 asked
  pub reserve_fits : IsU64 cfg.withdraw_reserve

module _ (fl : Floats) (cfg : Config) (ans : Answers) (all : Bool) (asked : ℕ) (key : Text)
    (log : Option Text) where
  abbrev fee : ℕ
  fee = compute_fee fl cfg.gas cfg.gas_prices

  open_withdraw-safe :
      (r : Got Account)
      → ans.key ≡ r
      → is_empty cfg.withdraw_addr ≡ false
      → AreU64 fl cfg ans asked
      → SendsWithdrawal cfg ans fee all asked (open_withdraw fl cfg ans log key all asked r).sent
  unfolding open_withdraw
  open_withdraw-safe (failed e) k t u = inl refl
  open_withdraw-safe (got signer) k t u =
      check_withdraw-safe cfg ans log key all asked fee signer ans.balance k refl t u.bal_fits
        u.fee_fits u.asked_fits u.reserve_fits

  -- Where the numbers of the call are uint64s, whatever is asked for, `Withdraw` broadcasts at
  -- most one transaction, and only one that goes to the configured address, which is set, is
  -- signed with the operator key, and sends an amount that is positive, at least the minimum, and
  -- leaves the reserve with the fee paid: the amount asked for, or with `all` the whole of the
  -- rest.
  pub withdraw_safe :
      AreU64 fl cfg ans asked
      → SendsWithdrawal cfg ans fee all asked (withdraw fl cfg ans asked all key log).sent
  unfolding withdraw
  withdraw_safe u = elim (Bool-cases (is_empty cfg.withdraw_addr)) [
    | inl off ↦ rw off (inl refl)
    | inr on ↦ elim (Bool-cases (is_empty (lookup_withdraw log key))) [
      | inl new ↦ rw (on, new) (open_withdraw-safe ans.key refl on u)
      | inr old ↦ rw (on, old) (inl refl)
    ]
  ]
