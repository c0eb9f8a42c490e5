-- ===== src/Exec/Withdraw/Wired/Safe.antt =====
-- What `Withdraw`, with the keyring and the client of the chain in place, may hand to `Broadcast`.
use sentnodes_agent.Base.{
  IsU64, ℕ, ◌+◌, Bool, false, List, [], ◌∷◌, ◌≡◌, ◌⊎◌, sym, ap, ◌∙◌, arith, if◌then◌else◌,
}
use sentnodes_agent.Base.Got.{got}
use sentnodes_agent.Base.Text.{Text, is_empty}
use sentnodes_agent.Chain.{build_signed_send}
use sentnodes_agent.Chain.Client.{Reply, reply, refused, panics}
use sentnodes_agent.Chain.Client.Bounds.{query_balance-IsU64}
use sentnodes_agent.Config.{Config}
use sentnodes_agent.Exec.Withdraw.{Outcome, withdrawal, udvpn}
use sentnodes_agent.Exec.Withdraw.Guard.{IsCovered}
use sentnodes_agent.Exec.Withdraw.Safe.{IsWithdrawal}
use sentnodes_agent.Exec.Withdraw.Wired.{
  Outside, Run, returns, panicked, run_sent, opens, endpoints, balance_of, numbers_of, got_reply,
  answers_with, answers_of,
}
use sentnodes_agent.Exec.Withdraw.Wired.Refines.{RunRefines}
use sentnodes_agent.Keys.{Account}
use sentnodes_agent.Keys.Open.{Opened, opened, not_opened, open_panics}
use sentnodes_agent.Protobuf.{Bytes}

-- The one transaction `tx`: signed with the key that `Open` gives for the configured name, to the
-- configured address, of an amount that the balance covers that `Balance` returns for the key's
-- address, under the numbers that `Account` returns for it.
pub record IsPayment (cfg : Config) (out : Outside) (fee : ℕ) (all : Bool) (asked : ℕ) (tx : Bytes)
    : Type 0 where
  pub signer : Account
  pub bal : ℕ
  pub amount : ℕ
  pub number : ℕ
  pub sequence : ℕ
  pub key : opens out cfg ≡ opened signer
  pub balance : balance_of out cfg signer ≡ reply bal
  pub account : numbers_of out cfg signer ≡ reply (number, sequence)
  pub to_set : is_empty cfg.withdraw_addr ≡ false
  pub chosen : if all then amount + fee + cfg.withdraw_reserve ≡ bal else amount ≡ asked
  pub covered : IsCovered amount bal fee cfg.withdraw_min cfg.withdraw_reserve
  pub same : tx ≡ build_signed_send signer (withdrawal cfg amount fee number sequence)

got_reply-got {ℓ} : {A : Type ℓ} {a : A} (r : Reply A) → got_reply r ≡ got a → r ≡ reply a
got_reply-got (reply a) h = ground (arith, h)
got_reply-got (refused e) h = absurd (ground (arith, h))
got_reply-got panics h = absurd (ground (arith, h))

module _ (out : Outside) (cfg : Config) where
  answers_with-key :
      (o : Opened) (signer : Account)
      → (answers_with out cfg o).key ≡ got signer
      → o ≡ opened signer
  answers_with-key (opened a) signer h = ground (arith, h)
  answers_with-key (not_opened e) signer h = absurd (ground (arith, h))
  answers_with-key open_panics signer h = absurd (ground (arith, h))

  answers_of-balance :
      (signer : Account)
      → opens out cfg ≡ opened signer
      → (answers_of out cfg).balance ≡ got_reply (balance_of out cfg signer)
  answers_of-balance signer h = ap (λ o. (answers_with out cfg o).balance) h

  answers_of-account :
      (signer : Account)
      → opens out cfg ≡ opened signer
      → (answers_of out cfg).account ≡ got_reply (numbers_of out cfg signer)
  answers_of-account signer h = ap (λ o. (answers_with out cfg o).account) h

  -- Without an open key there is no balance; with one, it is what `Balance` returns.
  pub answers_with-balance_fits :
      (o : Opened) (bal : ℕ) → (answers_with out cfg o).balance ≡ got bal → IsU64 bal
  answers_with-balance_fits (opened a) bal h =
      query_balance-IsU64 out.balance_web (endpoints cfg) a.operator_addr udvpn
        (got_reply-got (balance_of out cfg a) h)
  answers_with-balance_fits (not_opened e) bal h = absurd (ground (arith, h))
  answers_with-balance_fits open_panics bal h = absurd (ground (arith, h))

  pub IsWithdrawal-IsPayment :
      (fee : ℕ) (all : Bool) (asked : ℕ) (tx : Bytes)
      → IsWithdrawal cfg (answers_of out cfg) fee all asked tx
      → IsPayment cfg out fee all asked tx
  IsWithdrawal-IsPayment fee all asked tx w =
      let key = answers_with-key (opens out cfg) w.signer w.key in
      record {
        signer = w.signer;
        bal = w.bal;
        amount = w.amount;
        number = w.number;
        sequence = w.sequence;
        key = key;
        balance = got_reply-got _ (sym (answers_of-balance w.signer key) ∙ w.balance);
        account = got_reply-got _ (sym (answers_of-account w.signer key) ∙ w.account);
        to_set = w.to_set;
        chosen = w.chosen;
        covered = w.covered;
        same = w.same;
      }

pub run_sent-RunRefines : (r : Run) (o : Outcome) → RunRefines r o → run_sent r ≡ o.sent
run_sent-RunRefines (returns o') o h = ap (λ (o : Outcome). o.sent) h
run_sent-RunRefines (panicked sent) o h = h

-- Nothing is handed to `Broadcast`, or one transaction that is a payment.
abbrev pub SendsPayment :
    Config → Outside → (fee : ℕ) → (all : Bool) → (asked : ℕ) → List Bytes → Type 0
SendsPayment cfg out fee all asked sent =
    (sent ≡ []) ⊎ ((tx : Bytes) × (sent ≡ tx ∷ []) × IsPayment cfg out fee all asked tx)
