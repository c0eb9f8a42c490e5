-- ===== src/Exec/Withdraw/Paid.antt =====
-- The log of withdrawals only grows, and its first entry of a key is the one that counts.
use sentnodes_agent.Base.{
  ℕ, Bool, false, Option, none, some, List, [], ◌∷◌, ◌++◌, All, Bool-cases, ◌≡◌, ap, ◌∙◌, inl, inr,
  arith,
}
use mathlib.Core.List.{append_assoc}
use sentnodes_agent.Base.Got.{Got, got, failed}
use sentnodes_agent.Base.Text.{Text, equal, fields, is_empty, split}
use sentnodes_agent.Chain.{build_signed_send}
use sentnodes_agent.Config.{Config}
use sentnodes_agent.Exec.Withdraw.{
  Checked, send_amount, refuse, entry_or, lookup_lines, lookup_withdraw, log_entry, record_withdraw,
  Answers, withdrawal, finish_withdraw, send_withdraw, act_on, check_withdraw, open_withdraw,
  withdraw, settle_amount, compute_fee,
}
use sentnodes_agent.Exec.Withdraw.Log.{unlines, IsLine, split-unlines}
use sentnodes_agent.Float.{Floats}
use sentnodes_agent.Keys.{Account}
use sentnodes_agent.Protobuf.{Bytes}

-- The log has whole lines at its front in which the key has the hash.
pub record Paid (key hash : Text) (log : Option Text) : Type 0 where
  pub lines : List Text
  pub rest : Text
  pub was : log ≡ some (unlines lines ++ rest)
  pub are_lines : All IsLine lines
  pub found : lookup_lines lines key ≡ hash
  pub filled : is_empty hash ≡ false

entry_or-first :
    (key hash : Text) (ws : List Text) (x y : Text)
    → (x ≡ hash → y ≡ hash)
    → entry_or key ws x ≡ hash
    → entry_or key ws y ≡ hash
entry_or-first key hash [] x y go e = go e
entry_or-first key hash (name ∷ []) x y go e = go e
entry_or-first key hash (name ∷ h ∷ more) x y go e = elim (Bool-cases (equal name key)) [
  | inl here ↦ rw here (rw here at e)
  | inr other ↦ rw other (go (rw other at e))
]

lookup_lines-first :
    (ls ms : List Text) (key hash : Text)
    → is_empty hash ≡ false
    → lookup_lines ls key ≡ hash
    → lookup_lines (ls ++ ms) key ≡ hash
unfolding lookup_lines
lookup_lines-first [] ms key hash f e = absurd (ground (arith, f, ap is_empty e))
lookup_lines-first (l ∷ ls) ms key hash f e =
    entry_or-first key hash (fields l) (lookup_lines ls key) (lookup_lines (ls ++ ms) key)
      (lookup_lines-first ls ms key hash f) e

pub Paid-lookup :
    (key hash : Text) (log : Option Text) → Paid key hash log → lookup_withdraw log key ≡ hash
unfolding lookup_withdraw
Paid-lookup key hash log p = rw p.was (
    ap (λ ms. lookup_lines ms key) (split-unlines p.lines p.rest p.are_lines)
    ∙ lookup_lines-first p.lines (split p.rest b'\n') key hash p.filled p.found)

Paid-record :
    (key hash k h : Text) (log : Option Text)
    → Paid key hash log
    → Paid key hash (some (record_withdraw log k h))
unfolding record_withdraw
Paid-record key hash k h log p = record {
  lines = p.lines;
  rest = p.rest ++ log_entry k h;
  was = rw p.was (ap some (append_assoc (unlines p.lines) p.rest (log_entry k h)));
  are_lines = p.are_lines;
  found = p.found;
  filled = p.filled;
}

-- A call of `Withdraw` leaves its log as it is or with one more record.
module _ (P : Option Text → Type 0) (log : Option Text) (key : Text) (same : P log)
    (more : (h : Text) → P (some (record_withdraw log key h))) where
  finish_withdraw-log :
      (ans : Answers) (tx : Bytes) (r : Text × Option Text)
      → P (finish_withdraw ans log key tx r).log
  unfolding finish_withdraw
  finish_withdraw-log ans tx (h, some e) = same
  finish_withdraw-log ans tx (h, none) = elim (Bool-cases ans.recorded) [
    | inl y ↦ rw y (more h)
    | inr n ↦ rw n same
  ]

  module _ (cfg : Config) (ans : Answers) where
    send_withdraw-log :
        (signer : Account) (x fee : ℕ) (a : Got (ℕ × ℕ))
        → P (send_withdraw cfg ans log key signer x fee a).log
    unfolding send_withdraw
    send_withdraw-log signer x fee (failed e) = same
    send_withdraw-log signer x fee (got (number, sequence)) =
        let tx : Bytes = build_signed_send signer (withdrawal cfg x fee number sequence) in
        finish_withdraw-log ans tx (ans.broadcast tx)

    act_on-log :
        (signer : Account) (fee : ℕ) (ck : Checked) → P (act_on cfg ans log key signer fee ck).log
    act_on-log signer fee (refuse e) = same
    act_on-log signer fee (send_amount x) = send_withdraw-log signer x fee ans.account

    check_withdraw-log :
        (signer : Account) (all : Bool) (asked fee : ℕ) (r : Got ℕ)
        → P (check_withdraw cfg ans log key signer all asked fee r).log
    unfolding check_withdraw
    check_withdraw-log signer all asked fee (failed e) = same
    check_withdraw-log signer all asked fee (got bal) =
        act_on-log signer fee
          (settle_amount all asked bal fee cfg.withdraw_min cfg.withdraw_reserve)

    open_withdraw-log :
        (fl : Floats) (all : Bool) (asked : ℕ) (r : Got Account)
        → P (open_withdraw fl cfg ans log key all asked r).log
    unfolding open_withdraw
    open_withdraw-log fl all asked (failed e) = same
    open_withdraw-log fl all asked (got signer) =
        check_withdraw-log signer all asked (compute_fee fl cfg.gas cfg.gas_prices) ans.balance

    pub withdraw-log :
        (fl : Floats) (all : Bool) (asked : ℕ) → P (withdraw fl cfg ans asked all key log).log
    unfolding withdraw
    withdraw-log fl all asked = elim (Bool-cases (is_empty cfg.withdraw_addr)) [
      | inl off ↦ rw off same
      | inr on ↦ elim (Bool-cases (is_empty (lookup_withdraw log key))) [
        | inl new ↦ rw (on, new) (open_withdraw-log fl all asked ans.key)
        | inr old ↦ rw (on, old) same
      ]
    ]

-- What is paid stays paid, whatever else is withdrawn.
pub withdraw-Paid :
    (key hash : Text) (fl : Floats) (cfg : Config) (ans : Answers) (asked : ℕ) (all : Bool)
    (k : Text) (log : Option Text)
    → Paid key hash log
    → Paid key hash (withdraw fl cfg ans asked all k log).log
withdraw-Paid key hash fl cfg ans asked all k log p =
    withdraw-log (Paid key hash) log k p (λ h. Paid-record key hash k h log p) cfg ans fl all asked
