-- ===== src/Chain.antt =====
-- internal/chain/chain.go: the endpoints, the queries and the transaction that is sent. The answers
-- of the HTTP endpoints are arguments.
pub mod Client
pub mod Fields
pub mod Tx
use sentnodes_agent.Base.{
  ℕ, ◌+◌, ◌*◌, ◌^◌, Bool, true, false, Option, none, some, List, [], ◌∷◌, ◌++◌, if◌then◌else◌,
}
use sentnodes_agent.Base.Text.{Text, codes, is_empty}
use sentnodes_agent.Decimal.{format_uint, parse_uint, parsed_value}
use sentnodes_agent.Keys.{Account}
use sentnodes_agent.Protobuf.{
  Bytes, bytes_field, str, uint64_field, any_msg, pb_bytes_field, pb_varint_field, Scan, done,
  panic, stuck,
}

abbrev pub sign_mode_direct : ℕ
sign_mode_direct = 1

-- The local function `coin` of `BuildSignedSend`.
unfoldable pub coin : Text → ℕ → Bytes
unfolding bytes_field format_uint
coin denom amt = str (str [] 1 denom) 2 (format_uint amt)

-- The arguments of `BuildSignedSend` behind the account.
pub record Send : Type 0 where
  pub chain_id : Text
  pub to : Text
  pub denom : Text
  pub amount : ℕ
  pub fee : ℕ
  pub gas : ℕ
  pub account_number : ℕ
  pub sequence : ℕ
  pub memo : Text

-- cosmos.bank.v1beta1.MsgSend
unfoldable pub msg_send : Account → Send → Bytes
unfolding coin bytes_field
msg_send acct s = bytes_field (str (str [] 1 acct.operator_addr) 2 s.to) 3 (coin s.denom s.amount)

-- cosmos.tx.v1beta1.TxBody
unfoldable pub body_bytes : Account → Send → Bytes
unfolding msg_send any_msg bytes_field
body_bytes acct s =
    let body =
      bytes_field [] 1 (any_msg (codes "/cosmos.bank.v1beta1.MsgSend") (msg_send acct s)) in
    if is_empty s.memo then body else str body 2 s.memo

-- SignerInfo, with the public key and the mode
unfoldable pub signer_info : Account → Send → Bytes
unfolding any_msg bytes_field uint64_field
signer_info acct s =
    let pk_any =
      any_msg (codes "/cosmos.crypto.secp256k1.PubKey") (bytes_field [] 1 acct.pub_compressed) in
    let mode_info = bytes_field [] 1 (uint64_field [] 1 sign_mode_direct) in
    uint64_field (bytes_field (bytes_field [] 1 pk_any) 2 mode_info) 3 s.sequence

unfoldable pub fee_msg : Send → Bytes
unfolding coin bytes_field uint64_field
fee_msg s = uint64_field (bytes_field [] 1 (coin s.denom s.fee)) 2 s.gas

unfoldable pub auth_info_bytes : Account → Send → Bytes
unfolding signer_info fee_msg bytes_field
auth_info_bytes acct s = bytes_field (bytes_field [] 1 (signer_info acct s)) 2 (fee_msg s)

unfoldable pub sign_doc : Account → Send → Bytes
unfolding body_bytes auth_info_bytes bytes_field uint64_field
sign_doc acct s =
    uint64_field
      (str (bytes_field (bytes_field [] 1 (body_bytes acct s)) 2 (auth_info_bytes acct s)) 3
        s.chain_id)
      4 s.account_number

-- `BuildSignedSend`: the TxRaw.
unfoldable pub build_signed_send : Account → Send → Bytes
unfolding body_bytes auth_info_bytes sign_doc bytes_field
build_signed_send acct s =
    bytes_field (bytes_field (bytes_field [] 1 (body_bytes acct s)) 2 (auth_info_bytes acct s)) 3
      (acct.sign (sign_doc acct s))
