-- ===== src/Exec/Withdraw/Wired/Succeeds.antt =====
-- When `Withdraw`, with the keyring and the client of the chain in place, succeeds.
use sentnodes_agent.Base.{
  IsU64, ℕ, ◌+◌, ◌^◌, ◌≤◌, Bool, false, Option, none, some, List, [], ◌∷◌, length, ◌≡◌, refl,
  if◌then◌else◌, ap,
}
use sentnodes_agent.Base.Text.{Text, codes, is_empty}
use sentnodes_agent.Chain.{build_signed_send, coin}
use sentnodes_agent.Chain.Client.{reply}
use sentnodes_agent.Chain.Client.Answers
use sentnodes_agent.Chain.Client.Answers.{
  Accepts, broadcast_tx-Accepts, query_balance-coin, query_account-message,
}
use sentnodes_agent.Config.{Config}
use sentnodes_agent.Exec.Withdraw.{
  Outcome, send_amount, lookup_withdraw, record_withdraw, withdrawal, settle_amount, compute_fee,
  udvpn,
}
use sentnodes_agent.Exec.Withdraw.Guard.{IsCovered, IsCovered-settle_amount}
use sentnodes_agent.Exec.Withdraw.Wired.{
  Outside, returns, opens, endpoints, balance_of, numbers_of, broadcast_of, with_broadcast,
  with_account, with_balance, with_opened, withdraw_wired,
}
use sentnodes_agent.Float.{Floats}
use sentnodes_agent.Keys.{Account}
use sentnodes_agent.Keys.Open.{opened}
use sentnodes_agent.Protobuf.{Bytes, str, bytes_field, any_msg}
use sentnodes_agent.Protobuf.Encodes.{Encodes}
use sentnodes_agent.Protobuf.Message.{Field, find_uint64}

-- The outcome of a withdrawal that succeeds.
abbrev pub pays : Outside → (log : Option Text) → (key hash : Text) → Bytes → Outcome
pays out log key hash tx = record {
  hash = hash;
  error = none;
  sent = tx ∷ [];
  log = if out.recorded then some (record_withdraw log key hash) else log;
}

-- What the parts answer when a withdrawal of `amount` succeeds.
record Succeeds (fl : Floats) (cfg : Config) (out : Outside) (asked : ℕ) (all : Bool)
    (signer : Account) (amount number sequence : ℕ) (hash : Text) : Type 0 where
  bal : ℕ
  key : opens out cfg ≡ opened signer
  balance : balance_of out cfg signer ≡ reply bal
  settled :
      settle_amount all asked bal
        (compute_fee fl cfg.gas cfg.gas_prices)
        cfg.withdraw_min
        cfg.withdraw_reserve
      ≡ send_amount amount
  account : numbers_of out cfg signer ≡ reply (number, sequence)
  broadcast :
      broadcast_of out cfg (
        build_signed_send signer
          (withdrawal cfg amount (compute_fee fl cfg.gas cfg.gas_prices) number sequence))
      ≡ reply (hash, none)

withdraw_wired-Succeeds :
    (fl : Floats) (cfg : Config) (out : Outside) (asked : ℕ) (all : Bool) (key : Text)
    (log : Option Text) (signer : Account) (amount number sequence : ℕ) (hash : Text)
    → is_empty cfg.withdraw_addr ≡ false
    → lookup_withdraw log key ≡ []
    → Succeeds fl cfg out asked all signer amount number sequence hash
    → withdraw_wired fl cfg out asked all key log
      ≡ returns (
          pays out log key hash (
            build_signed_send signer
              (withdrawal cfg amount (compute_fee fl cfg.gas cfg.gas_prices) number sequence)))
unfolding withdraw_wired with_opened with_balance with_account with_broadcast
withdraw_wired-Succeeds fl cfg out asked all key log signer amount number sequence hash set new s =
    rw (set, ap is_empty new, s.key, s.balance, s.settled, s.account, s.broadcast) refl

-- The endpoints answer the two queries for the key's address: with a coin of `bal`, and with an
-- account whose message has the fields.
pub record EndpointsHold (cfg : Config) (out : Outside) (signer : Account) (bal : ℕ)
    (fields : List Field) : Type 0 where
  pub shown : Text
  pub url : Text
  pub base : Bytes
  pub bal_fits : IsU64 bal
  pub shown_fits : length shown ≤ 2 ^ 20
  pub url_fits : length url ≤ 2 ^ 20
  pub encoded : Encodes base fields (2 ^ 25)
  pub balance_answer :
      Answers.Answers out.balance_web
        (endpoints cfg)
        (codes "/cosmos.bank.v1beta1.Query/Balance")
        (str (str [] 1 signer.operator_addr) 2 udvpn)
        (bytes_field [] 1 (coin shown bal))
  pub account_answer :
      Answers.Answers out.account_web
        (endpoints cfg)
        (codes "/cosmos.auth.v1beta1.Query/Account")
        (str [] 1 signer.operator_addr)
        (bytes_field [] 1 (any_msg url base))

-- The amount that is asked for, or with `all` the whole of the rest, and it is covered.
pub record CanPay (fl : Floats) (cfg : Config) (asked : ℕ) (all : Bool) (bal amount : ℕ)
    : Type 0 where
  pub fee_fits : IsU64 (compute_fee fl cfg.gas cfg.gas_prices)
  pub reserve_fits : IsU64 cfg.withdraw_reserve
  pub asked_fits : IsU64 asked
  pub chosen :
      if all
      then amount + compute_fee fl cfg.gas cfg.gas_prices + cfg.withdraw_reserve ≡ bal
      else amount ≡ asked
  pub covered :
      IsCovered amount bal
        (compute_fee fl cfg.gas cfg.gas_prices)
        cfg.withdraw_min
        cfg.withdraw_reserve

-- The signed transaction of an amount, under the numbers of the account's message.
abbrev pub payment : Floats → Config → Account → (amount : ℕ) → List Field → Bytes
payment fl cfg signer amount fields = build_signed_send signer (
    withdrawal cfg amount (compute_fee fl cfg.gas cfg.gas_prices) (find_uint64 3 fields)
      (find_uint64 4 fields))

-- With a destination set, a key that is not in the log, the operator key open, endpoints that answer
-- the two queries and accept the signed transaction of an amount that the balance
-- covers, `Withdraw` returns without an error: it has handed just that transaction to `Broadcast`, it
-- returns the hash of the answer, and it has recorded it where the log can be written.
pub withdraw_wired-pays :
    (fl : Floats) (cfg : Config) (out : Outside) (asked : ℕ) (all : Bool) (key : Text)
    (log : Option Text) (signer : Account) (bal amount : ℕ) (fields : List Field)
    → is_empty cfg.withdraw_addr ≡ false
    → lookup_withdraw log key ≡ []
    → opens out cfg ≡ opened signer
    → EndpointsHold cfg out signer bal fields
    → CanPay fl cfg asked all bal amount
    → (a : Accepts out.broadcast_web (endpoints cfg) (payment fl cfg signer amount fields))
    → withdraw_wired fl cfg out asked all key log
      ≡ returns (pays out log key a.response.hash (payment fl cfg signer amount fields))
withdraw_wired-pays fl cfg out asked all key log signer bal amount fields set new open_ok hold can
      a =
    withdraw_wired-Succeeds fl cfg out asked all key log signer amount (find_uint64 3 fields)
      (find_uint64 4 fields) a.response.hash set new
      (record {
        bal = bal;
        key = open_ok;
        balance =
            query_balance-coin out.balance_web (endpoints cfg) signer.operator_addr udvpn hold.shown
              bal hold.shown_fits hold.bal_fits hold.balance_answer;
        settled =
            IsCovered-settle_amount bal (compute_fee fl cfg.gas cfg.gas_prices) cfg.withdraw_min
              cfg.withdraw_reserve hold.bal_fits can.fee_fits can.reserve_fits all asked amount
              can.asked_fits can.chosen can.covered;
        account =
            query_account-message out.account_web (endpoints cfg) signer.operator_addr hold.url
              hold.base fields hold.url_fits hold.encoded hold.account_answer;
        broadcast = broadcast_tx-Accepts out.broadcast_web (endpoints cfg) _ a;
      })
