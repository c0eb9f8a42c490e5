-- ===== src/Exec/Withdraw/Wired.antt =====
-- `Withdraw` of internal/exec/exec.go with the keyring of internal/keys/keys.go and the client of
-- internal/chain/chain.go in place of the answers.
pub mod Refines
pub mod Safe
pub mod Succeeds
use sentnodes_agent.Base.{ℕ, Bool, Option, none, some, List, [], ◌∷◌, if◌then◌else◌}
use sentnodes_agent.Base.Got.{Got, got, failed}
use sentnodes_agent.Base.Text.{Text, codes, is_empty}
use sentnodes_agent.Chain.{build_signed_send}
use sentnodes_agent.Chain.Client
use sentnodes_agent.Chain.Client.{
  Web, RpcError, Reply, reply, refused, panics, new_client, broadcast_tx,
}
use sentnodes_agent.Chain.Client.Texts.{rpc_error_text}
use sentnodes_agent.Config.{Config, rpc_endpoints}
use sentnodes_agent.Exec.Withdraw.{
  WithdrawError, disabled, open_key, query_balance, query_account, broadcast_failed, Checked,
  send_amount, refuse, lookup_withdraw, record_withdraw, Answers, Outcome, fails, udvpn, withdrawal,
  settle_amount, compute_fee,
}
use sentnodes_agent.Float.{Floats}
use sentnodes_agent.Keys.{Account}
use sentnodes_agent.Keys.Open
use sentnodes_agent.Keys.Open.{Crypto, Opened, opened, not_opened, open_panics}
use sentnodes_agent.Keys.Texts.{open_error_text}
use sentnodes_agent.Protobuf.{Bytes}

-- What is outside: the keyring and the cryptography, the network as the queries for the balance and
-- for the account and the broadcast meet it, and whether `recordWithdraw` writes the log.
pub record Outside : Type 0 where
  pub crypto : Crypto
  pub balance_web : Web
  pub account_web : Web
  pub broadcast_web : Web
  pub recorded : Bool

-- How a call ends: it returns, or a run-time panic ends it with what it has handed to `Broadcast`.
pub data Run : Type 0 where
  returns : Outcome → Run
  panicked : List Bytes → Run

-- The transactions that are handed to `Broadcast`.
abbrev pub run_sent : Run → List Bytes
run_sent (returns o) = o.sent
run_sent (panicked sent) = sent

-- chain.New(cfg.RPCEndpoints())
abbrev pub endpoints : Config → List Text
endpoints cfg = new_client (rpc_endpoints cfg)

-- The key of `Withdraw`.
abbrev pub opens : Outside → Config → Opened
opens out cfg =
    Open.open_key out.crypto cfg.node_home cfg.keyring_backend cfg.from_name (codes "sent")
      (codes "sentnode")

abbrev pub balance_of : Outside → Config → Account → Reply ℕ
balance_of out cfg signer =
    Client.query_balance out.balance_web (endpoints cfg) signer.operator_addr udvpn

abbrev pub numbers_of : Outside → Config → Account → Reply (ℕ × ℕ)
numbers_of out cfg signer =
    Client.query_account out.account_web (endpoints cfg) signer.operator_addr

abbrev pub broadcast_of : Outside → Config → Bytes → Reply (Text × Option RpcError)
broadcast_of out cfg tx = broadcast_tx out.broadcast_web (endpoints cfg) tx

module _ (out : Outside) (cfg : Config) (log : Option Text) (key : Text) where
  -- From the answer of `Broadcast` on; that never refuses, but returns its error beside the hash.
  unfoldable pub with_broadcast : Bytes → Reply (Text × Option RpcError) → Run
  unfolding record_withdraw rpc_error_text
  with_broadcast tx (reply (h, none)) = returns (record {
    hash = h;
    error = none;
    sent = tx ∷ [];
    log = if out.recorded then some (record_withdraw log key h) else log;
  })
  with_broadcast tx (reply (h, some e)) = returns (record {
    hash = h;
    error = some (broadcast_failed (rpc_error_text e));
    sent = tx ∷ [];
    log = log;
  })
  with_broadcast tx (refused e) = returns (record {
    hash = [];
    error = some (broadcast_failed (rpc_error_text e));
    sent = tx ∷ [];
    log = log;
  })
  with_broadcast tx panics = panicked (tx ∷ [])

  -- From the account on.
  unfoldable pub with_account : Account → (amount fee : ℕ) → Reply (ℕ × ℕ) → Run
  unfolding with_broadcast build_signed_send broadcast_tx rpc_error_text
  with_account signer amount fee (reply (number, sequence)) =
      let tx = build_signed_send signer (withdrawal cfg amount fee number sequence) in
      with_broadcast tx (broadcast_of out cfg tx)
  with_account signer amount fee (refused e) =
      returns (fails log (query_account (rpc_error_text e)))
  with_account signer amount fee panics = panicked []

  abbrev pub with_checked : Account → (fee : ℕ) → Checked → Run
  with_checked signer fee (refuse e) = returns (fails log e)
  with_checked signer fee (send_amount amount) =
      with_account signer amount fee (numbers_of out cfg signer)

  -- From the balance on.
  unfoldable pub with_balance : Account → Bool → (amount fee : ℕ) → Reply ℕ → Run
  unfolding with_account settle_amount Client.query_account new_client rpc_endpoints rpc_error_text
  with_balance signer all amount fee (reply bal) =
      with_checked signer fee
        (settle_amount all amount bal fee cfg.withdraw_min cfg.withdraw_reserve)
  with_balance signer all amount fee (refused e) =
      returns (fails log (query_balance (rpc_error_text e)))
  with_balance signer all amount fee panics = panicked []

  -- From the key on.
  unfoldable pub with_opened : Floats → Bool → (amount : ℕ) → Opened → Run
  unfolding with_balance compute_fee Client.query_balance open_error_text
  with_opened fl all amount (opened signer) =
      with_balance signer all amount (compute_fee fl cfg.gas cfg.gas_prices)
        (balance_of out cfg signer)
  with_opened fl all amount (not_opened e) = returns (fails log (open_key (open_error_text e)))
  with_opened fl all amount open_panics = panicked []

-- `Withdraw`
unfoldable pub withdraw_wired :
    Floats → Config → Outside → (amount : ℕ) → (all : Bool) → (key : Text) → Option Text → Run
unfolding lookup_withdraw with_opened Open.open_key
withdraw_wired fl cfg out amount all key log =
    if is_empty cfg.withdraw_addr
    then returns (fails log disabled)
    else if is_empty (lookup_withdraw log key)
    then with_opened out cfg log key fl all amount (opens out cfg)
    else returns (record { hash = lookup_withdraw log key; error = none; sent = []; log = log })

-- What the keyring and the client answer to a call, as the answers of `withdraw`. A panic ends the
-- call, so that nothing reads the value that it has here.
abbrev pub got_reply {ℓ} : {A : Type ℓ} → Reply A → Got A
got_reply (reply a) = got a
got_reply (refused e) = failed (rpc_error_text e)
got_reply panics = failed []

abbrev pub hash_and_error : Reply (Text × Option RpcError) → Text × Option Text
hash_and_error (reply (h, none)) = (h, none)
hash_and_error (reply (h, some e)) = (h, some (rpc_error_text e))
hash_and_error (refused e) = ([], some (rpc_error_text e))
hash_and_error panics = ([], none)

abbrev pub answers_with : Outside → Config → Opened → Answers
answers_with out cfg (opened signer) = record {
  key = got signer;
  balance = got_reply (balance_of out cfg signer);
  account = got_reply (numbers_of out cfg signer);
  broadcast = λ tx. hash_and_error (broadcast_of out cfg tx);
  recorded = out.recorded;
}
answers_with out cfg (not_opened e) = record {
  key = failed (open_error_text e);
  balance = failed [];
  account = failed [];
  broadcast = λ tx. ([], none);
  recorded = out.recorded;
}
answers_with out cfg open_panics = record {
  key = failed [];
  balance = failed [];
  account = failed [];
  broadcast = λ tx. ([], none);
  recorded = out.recorded;
}

abbrev pub answers_of : Outside → Config → Answers
answers_of out cfg = answers_with out cfg (opens out cfg)
