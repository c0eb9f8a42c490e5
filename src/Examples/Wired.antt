-- ===== src/Examples/Wired.antt =====
-- Concrete withdrawals with the keyring and the chain's client in place: internal/exec/exec.go.

use sentnodes_agent.Base.{IsU64, true, false, none, [], ◌≡◌, refl, arith}
use sentnodes_agent.Base.Escape.{hex_encode, query_escape}
use sentnodes_agent.Base.Got.{got}
use sentnodes_agent.Base.Int.{pos}
use sentnodes_agent.Base.Text.{Text, codes}
use sentnodes_agent.Chain.{coin}
use sentnodes_agent.Chain.Client.{Web, reply, call, broadcast_path, new_client}
use sentnodes_agent.Chain.Client.Answers.{Answers, Accepts}
use sentnodes_agent.Config.{rpc_endpoints}
use sentnodes_agent.Examples.Client.{
  toy_crypto, base_account, base_fields, base_account-Encodes, some_account,
}
use sentnodes_agent.Examples.Commands.{tenths, settings, first_key}
use sentnodes_agent.Examples.Messages.{zero_key}
use sentnodes_agent.Exec.Withdraw.{compute_fee, lookup_withdraw, udvpn}
use sentnodes_agent.Exec.Withdraw.Wired.{Outside, returns, opens, endpoints, withdraw_wired}
use sentnodes_agent.Exec.Withdraw.Wired.Succeeds.{
  EndpointsHold, CanPay, pays, payment, withdraw_wired-pays,
}
use sentnodes_agent.Keys.{Account}
use sentnodes_agent.Keys.Open.{opened, open_key, account_of}
use sentnodes_agent.Protobuf.{Bytes, bytes_field}

-- A chain that answers each query with the bytes, and accepts each transaction.
abbrev open_chain : Bytes → Web
open_chain val = record {
  parses = λ url. true;
  get = λ n url. got (codes "b");
  envelope = λ t. got (record { result = t; error = none });
  query_response = λ t. got (record { code = pos 0; log = []; value = t });
  broadcast_response =
      λ t. got (record { code = pos 0; log = []; hash = codes "AB"; codespace = [] });
  decode_base64 = λ t. got val;
}

abbrev rich_coin : Bytes
rich_coin = bytes_field [] 1 (coin udvpn 400_000_000)

abbrev pub wired_world : Outside
wired_world = record {
  crypto = toy_crypto;
  balance_web = open_chain rich_coin;
  account_web = open_chain some_account;
  broadcast_web = open_chain [];
  recorded = true;
}

fee_fits : IsU64 (compute_fee tenths settings.gas settings.gas_prices)
unfolding compute_fee
fee_fits = omega arith

abbrev pub toy_signer : Account
toy_signer =
    account_of toy_crypto (zero_key 32) (codes "sent1qypqxh800ep") (codes "sentnode1qypqx0rhvra")

pub toy_opens : opens wired_world settings ≡ opened toy_signer
unfolding open_key sentnodes_agent.Protobuf.Uvarint.groups
toy_opens = refl

new_key : lookup_withdraw none first_key ≡ []
unfolding lookup_withdraw
new_key = refl

open_chain-Answers :
    (path : Text) (bs val : Bytes) → Answers (open_chain val) (endpoints settings) path bs val
unfolding call query_escape hex_encode new_client rpc_endpoints
open_chain-Answers path bs val = record {
  raw = codes "b";
  response = record { code = pos 0; log = []; value = codes "b" };
  called = refl;
  parsed = refl;
  accepted = refl;
  decoded = refl;
}

open_chain-call :
    (tx : Bytes) → call (open_chain []) (endpoints settings) (broadcast_path tx) ≡ reply (codes "b")
unfolding call hex_encode new_client rpc_endpoints
open_chain-call tx = refl

abbrev accepts : (tx : Bytes) → Accepts (open_chain []) (endpoints settings) tx
accepts tx = record {
  raw = codes "b";
  response = record { code = pos 0; log = []; hash = codes "AB"; codespace = [] };
  called = open_chain-call tx;
  parsed = refl;
  accepted = refl;
}

wired_world-EndpointsHold : EndpointsHold settings wired_world toy_signer 400_000_000 base_fields
wired_world-EndpointsHold = record {
  shown = udvpn;
  url = codes "/cosmos.auth.v1beta1.BaseAccount";
  base = base_account;
  bal_fits = omega arith;
  shown_fits = omega arith;
  url_fits = omega arith;
  encoded = base_account-Encodes;
  balance_answer = open_chain-Answers _ _ rich_coin;
  account_answer = open_chain-Answers _ _ some_account;
}

settings-CanPay : CanPay tenths settings 300_000_000 false 400_000_000 300_000_000
unfolding compute_fee
settings-CanPay = record {
  fee_fits = omega arith;
  reserve_fits = omega arith;
  asked_fits = omega arith;
  chosen = refl;
  covered = record { positive = omega arith; minimum = omega arith; leaves = omega arith };
}

withdraw_wired-pays_example :
    withdraw_wired tenths settings wired_world 300_000_000 false first_key none
    ≡ returns (
        pays wired_world none first_key
          (codes "AB")
          (payment tenths settings toy_signer 300_000_000 base_fields))
withdraw_wired-pays_example =
    withdraw_wired-pays tenths settings wired_world 300_000_000 false first_key none toy_signer
      400_000_000 300_000_000 base_fields refl new_key toy_opens wired_world-EndpointsHold
      settings-CanPay (accepts (payment tenths settings toy_signer 300_000_000 base_fields))
