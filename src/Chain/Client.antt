-- ===== src/Chain/Client.antt =====
-- `New`, `Account`, `Balance`, `Broadcast`, `abciQuery` and `call` of internal/chain/chain.go.
-- HTTP, JSON and base64 are arguments.
pub mod Failover
pub mod Answers
pub mod Bounds
pub mod Texts
pub mod Urls
use sentnodes_agent.Base.{
  ℕ, suc, ◌+◌, ◌/◌, ◌%◌, ◌^◌, Bool, true, false, ◌&&◌, ◌||◌, Option, none, some, List, [], ◌∷◌,
  ◌++◌, ltb, leb, ◌==◌, if◌then◌else◌, take,
}
use mathlib.Core.List.{reverse}
use sentnodes_agent.Base.Got.{Got, got, failed}
use sentnodes_agent.Base.Int.{ℤ, is_zero}
use sentnodes_agent.Base.Escape.{hex_encode, query_escape}
use sentnodes_agent.Base.Text.{Text, codes, is_empty, trim_space}
use sentnodes_agent.Decimal.{parse_uint, parsed_value}
use sentnodes_agent.Protobuf.{
  Bytes, str, bytes_field, pb_bytes_field, pb_varint_field, Scan, done, panic, stuck,
}

-- strings.TrimRight(s, "/")
unfoldable pub drop_slashes : Text → Text
drop_slashes [] = []
drop_slashes (c ∷ r) = if c == b'/' then drop_slashes r else c ∷ r

unfoldable pub clean_endpoint : Text → Text
unfolding drop_slashes trim_space
clean_endpoint e = reverse (drop_slashes (reverse (trim_space e)))

abbrev pub keep_filled : Text → List Text → List Text
keep_filled [] es = es
keep_filled (c ∷ e) es = (c ∷ e) ∷ es

-- The endpoints that `New` keeps.
unfoldable pub new_client : List Text → List Text
unfolding clean_endpoint
new_client [] = []
new_client (e ∷ es) = keep_filled (clean_endpoint e) (new_client es)

-- The answer of an endpoint; the result is JSON as it came, and the error has a message and more
-- text.
pub record Envelope : Type 0 where
  pub result : Text
  pub error : Option (Text × Text)

pub record QueryResponse : Type 0 where
  pub code : ℤ
  pub log : Text
  pub value : Text

pub record BroadcastResponse : Type 0 where
  pub code : ℤ
  pub log : Text
  pub hash : Text
  pub codespace : Text

-- What the client asks of other code: `parses` says that a URL makes a request; `get` is the body
-- that the n-th request of a call gets, or the error of the HTTP client; then encoding/json and
-- base64.
pub record Web : Type 0 where
  pub parses : Text → Bool
  pub get : ℕ → Text → Got Text
  pub envelope : Text → Got Envelope
  pub query_response : Text → Got QueryResponse
  pub broadcast_response : Text → Got BroadcastResponse
  pub decode_base64 : Text → Got Bytes

-- The errors of the client, with what their texts print.
pub data RpcError : Type 0 where
  unreachable : Text → RpcError
  bad_response : (endpoint body : Text) → RpcError
  rpc_failed : (endpoint message more : Text) → RpcError
  no_endpoints : RpcError
  bad_json bad_base64 : Text → RpcError
  query_failed : (path : Text) → ℤ → (log : Text) → RpcError
  no_account : RpcError
  tx_rejected : ℤ → (codespace log : Text) → RpcError

-- How a call ends; `panics` is a run-time panic.
pub data Reply {ℓ} (A : Type ℓ) : Type ℓ where
  reply : A → Reply A
  refused : RpcError → Reply A
  panics : Reply A

infixl 5 ◌and_then◌
abbrev pub ◌and_then◌ {ℓ κ} : {A : Type ℓ} {B : Type κ} → Reply A → (A → Reply B) → Reply B
reply a and_then f = f a
refused e and_then f = refused e
panics and_then f = panics

-- What an endpoint's body says.
abbrev pub result_or_error : Text → Text → Option (Text × Text) → Reply Text
result_or_error ep r none = reply r
result_or_error ep r (some (message, more)) = refused (rpc_failed ep message more)

abbrev pub opened : Text → Text → Got Envelope → Reply Text
opened ep body (failed e) = refused (bad_response ep (trim_space body))
opened ep body (got env) = result_or_error ep env.result env.error

abbrev pub read_body : Web → Text → Got Text → Reply Text
read_body web ep (failed e) = refused (unreachable e)
read_body web ep (got sent) = let body = take (2 ^ 20) sent in opened ep body (web.envelope body)

abbrev pub broadcast_path : Bytes → Text
broadcast_path tx = codes "/broadcast_tx_sync?tx=0x" ++ hex_encode tx

module _ (web : Web) where
  -- One round of `call`. The error of `NewRequestWithContext` is dropped, and its nil request has no
  -- header to set.
  unfoldable pub try_endpoint : ℕ → Text → Text → Reply Text
  unfolding trim_space
  try_endpoint n query ep =
      if web.parses (ep ++ query) then read_body web ep (web.get n (ep ++ query)) else panics

  -- The loop of `call`; `last` is lastErr.
  unfoldable pub try_endpoints : ℕ → Text → RpcError → List Text → Reply Text
  unfolding try_endpoint
  try_endpoints n query last [] = refused last
  try_endpoints n query last (ep ∷ eps) = elim (try_endpoint n query ep) [
    | reply r ↦ reply r
    | refused e ↦ try_endpoints (suc n) query e eps
    | panics ↦ panics
  ]

  -- `call`: lastErr is nil exactly when there is no endpoint.
  unfoldable pub call : List Text → Text → Reply Text
  unfolding try_endpoints
  call eps query = try_endpoints 0 query no_endpoints eps

  abbrev pub of_base64 : Got Bytes → Reply Bytes
  of_base64 (got bs) = reply bs
  of_base64 (failed e) = refused (bad_base64 e)

  abbrev pub of_query : Text → Got QueryResponse → Reply Bytes
  of_query path (failed e) = refused (bad_json e)
  of_query path (got r) =
      if is_zero r.code
      then of_base64 (web.decode_base64 r.value)
      else refused (query_failed path r.code r.log)

  abbrev pub query_of : Text → Bytes → Text
  query_of path bs =
      codes "/abci_query?path="
      ++ (query_escape (b'"' ∷ path ++ b'"' ∷ []) ++ (codes "&data=0x" ++ hex_encode bs))

  -- `abciQuery`
  unfoldable pub abci_query : List Text → Text → Bytes → Reply Bytes
  unfolding call query_escape hex_encode
  abci_query eps path bs =
      call eps (query_of path bs) and_then λ raw. of_query path (web.query_response raw)

  abbrev pub of_broadcast : Got BroadcastResponse → Reply (Text × Option RpcError)
  of_broadcast (failed e) = reply ([], some (bad_json e))
  of_broadcast (got r) =
      if is_zero r.code
      then reply (r.hash, none)
      else reply (r.hash, some (tx_rejected r.code r.codespace r.log))

  abbrev pub after_call : Reply Text → Reply (Text × Option RpcError)
  after_call (reply raw) = of_broadcast (web.broadcast_response raw)
  after_call (refused e) = reply ([], some e)
  after_call panics = panics

  -- `Broadcast`: the hash and the error.
  unfoldable pub broadcast_tx : List Text → Bytes → Reply (Text × Option RpcError)
  unfolding call hex_encode
  broadcast_tx eps tx = after_call (call eps (broadcast_path tx))

-- A scan that is not answered has panicked: `stuck` is no outcome of the code.
abbrev pub of_scan {ℓ} : {A : Type ℓ} → Scan A → Reply A
of_scan (done a) = reply a
of_scan panic = panics
of_scan stuck = panics

-- A nil slice scans as an empty one.
abbrev pub or_nil : Option Bytes → Bytes
or_nil none = []
or_nil (some bs) = bs

-- pbBytesField(pbBytesField(val, 1), 2)
unfoldable pub inner_field : Bytes → Reply (Option Bytes)
unfolding pb_bytes_field
inner_field val = of_scan (pb_bytes_field val 1) and_then λ a. of_scan (pb_bytes_field (or_nil a) 2)

abbrev pub account_numbers : Option Bytes → Reply (ℕ × ℕ)
account_numbers none = refused no_account
account_numbers (some base) = of_scan (pb_varint_field base 3) and_then λ number.
    of_scan (pb_varint_field base 4) and_then λ sequence. reply (number, sequence)

abbrev pub amount_value : Text → ℕ
amount_value [] = 0
amount_value (c ∷ s) = parsed_value (parse_uint (c ∷ s))

module _ (web : Web) (eps : List Text) where
  -- `Account`: the number and the sequence.
  unfoldable pub query_account : (addr : Text) → Reply (ℕ × ℕ)
  unfolding abci_query inner_field bytes_field pb_varint_field
  query_account addr =
      abci_query web eps (codes "/cosmos.auth.v1beta1.Query/Account") (str [] 1 addr)
      and_then inner_field
      and_then account_numbers

  -- `Balance`
  unfoldable pub query_balance : (addr denom : Text) → Reply ℕ
  unfolding abci_query inner_field bytes_field parse_uint
  query_balance addr denom =
      abci_query web eps (codes "/cosmos.bank.v1beta1.Query/Balance") (str (str [] 1 addr) 2 denom)
      and_then inner_field
      and_then λ amount. reply (amount_value (or_nil amount))
