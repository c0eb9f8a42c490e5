-- ===== src/Chain/Fields.antt =====
-- The messages of `BuildSignedSend` as lists of fields.
use sentnodes_agent.Base.{
  IsU64, ℕ, ◌+◌, ◌^◌, ◌≤◌, ◌<◌, List, [], ◌∷◌, arith, length, if◌then◌else◌, Bool-cases, inl, inr,
}
use sentnodes_agent.Base.Text.{Text, codes, is_empty}
use sentnodes_agent.Chain.{
  Send, sign_mode_direct, coin, msg_send, body_bytes, signer_info, fee_msg, auth_info_bytes,
  sign_doc, build_signed_send,
}
use sentnodes_agent.Decimal.{format_uint}
use sentnodes_agent.Decimal.Laws.{length-format_uint_le}
use sentnodes_agent.Keys.{Account}
use sentnodes_agent.Protobuf.{Bytes, bytes_field, uint64_field, any_msg}
use sentnodes_agent.Protobuf.Message.{Field, bytes_of, uint64_of}
use sentnodes_agent.Protobuf.Encodes.{Encodes, empty, weaken, add_bytes, add_uint64}

-- Texts of at most 2 ^ 20 bytes, and numbers that are uint64s.
pub record Fits (acct : Account) (s : Send) : Type 0 where
  pub from_fits : length acct.operator_addr ≤ 2 ^ 20
  pub key_fits : length acct.pub_compressed ≤ 2 ^ 20
  pub signature_fits : (msg : Bytes) → length (acct.sign msg) ≤ 2 ^ 20
  pub chain_fits : length s.chain_id ≤ 2 ^ 20
  pub to_fits : length s.to ≤ 2 ^ 20
  pub denom_fits : length s.denom ≤ 2 ^ 20
  pub memo_fits : length s.memo ≤ 2 ^ 20
  pub gas_fits : IsU64 s.gas
  pub number_fits : IsU64 s.account_number
  pub sequence_fits : IsU64 s.sequence

abbrev coin_fields : Text → ℕ → List Field
coin_fields denom amt = bytes_of 1 denom ∷ bytes_of 2 (format_uint amt) ∷ []

pub coin-Encodes :
    (denom : Text) (amt : ℕ)
    → length denom ≤ 2 ^ 20
    → Encodes (coin denom amt) (coin_fields denom amt) (2 ^ 21)
unfolding coin
coin-Encodes denom amt h =
    let one = add_bytes 1 (2 ^ 20) denom empty (omega arith) h (omega arith) in
    let two =
      add_bytes 2 20 (format_uint amt) one (omega arith) (length-format_uint_le amt)
        (omega arith) in
    weaken (2 ^ 21) two (omega arith)

pub any_msg-Encodes :
    (url value : Bytes) (n : ℕ)
    → length url ≤ 2 ^ 20
    → length value ≤ n
    → n < 2 ^ 30
    → Encodes (any_msg url value) (bytes_of 1 url ∷ bytes_of 2 value ∷ []) (n + 2 ^ 21)
unfolding any_msg
any_msg-Encodes url value n h k l =
    let one = add_bytes 1 (2 ^ 20) url empty (omega arith) h (omega arith) in
    weaken (n + 2 ^ 21) (add_bytes 2 n value one (omega arith) k (omega arith)) (omega arith)

module _ (acct : Account) (s : Send) (fits : Fits acct s) where
  abbrev pub send_fields : List Field
  send_fields =
      bytes_of 1 acct.operator_addr ∷ bytes_of 2 s.to ∷ bytes_of 3 (coin s.denom s.amount) ∷ []

  pub msg_send-Encodes : Encodes (msg_send acct s) send_fields (2 ^ 23)
  unfolding msg_send
  msg_send-Encodes =
      let c = coin-Encodes s.denom s.amount fits.denom_fits in
      let one =
        add_bytes 1 (2 ^ 20) acct.operator_addr empty (omega arith) fits.from_fits (omega arith) in
      let two = add_bytes 2 (2 ^ 20) s.to one (omega arith) fits.to_fits (omega arith) in
      let three =
        add_bytes 3 (2 ^ 21) (coin s.denom s.amount) two (omega arith) c.size (omega arith) in
      weaken (2 ^ 23) three (omega arith)

  abbrev pub send_any : Bytes
  send_any = any_msg (codes "/cosmos.bank.v1beta1.MsgSend") (msg_send acct s)

  pub send_any-Encodes :
      Encodes send_any
        (bytes_of 1 (codes "/cosmos.bank.v1beta1.MsgSend") ∷ bytes_of 2 (msg_send acct s) ∷ [])
        (2 ^ 24)
  send_any-Encodes =
      weaken (2 ^ 24)
        (any_msg-Encodes (codes "/cosmos.bank.v1beta1.MsgSend") (msg_send acct s) (2 ^ 23)
          (omega arith) msg_send-Encodes.size (omega arith))
        (omega arith)

  abbrev pub body_fields : List Field
  body_fields = bytes_of 1 send_any ∷ (if is_empty s.memo then [] else bytes_of 2 s.memo ∷ [])

  pub body_bytes-Encodes : Encodes (body_bytes acct s) body_fields (2 ^ 25)
  unfolding body_bytes
  body_bytes-Encodes =
      let one =
        add_bytes 1 (2 ^ 24) send_any empty (omega arith) send_any-Encodes.size (omega arith) in
      elim (Bool-cases (is_empty s.memo)) [
        | inl bare ↦ rw bare (weaken (2 ^ 25) one (omega arith))
        | inr full ↦ rw full (
            weaken (2 ^ 25)
              (add_bytes 2 (2 ^ 20) s.memo one (omega arith) fits.memo_fits (omega arith))
              (omega arith))
      ]

  abbrev pub pk_any : Bytes
  pk_any = any_msg (codes "/cosmos.crypto.secp256k1.PubKey") (bytes_field [] 1 acct.pub_compressed)

  abbrev pub mode_info : Bytes
  mode_info = bytes_field [] 1 (uint64_field [] 1 sign_mode_direct)

  abbrev pub signer_fields : List Field
  signer_fields = bytes_of 1 pk_any ∷ bytes_of 2 mode_info ∷ uint64_of 3 s.sequence ∷ []

  pub signer_info-Encodes : Encodes (signer_info acct s) signer_fields (2 ^ 24)
  unfolding signer_info
  signer_info-Encodes =
      let key =
        add_bytes 1 (2 ^ 20) acct.pub_compressed empty (omega arith) fits.key_fits (omega arith) in
      let any =
        any_msg-Encodes (codes "/cosmos.crypto.secp256k1.PubKey")
          (bytes_field [] 1 acct.pub_compressed) (2 ^ 21) (omega arith) (omega (arith, key.size))
          (omega arith) in
      let single = add_uint64 1 sign_mode_direct empty (omega arith) (omega arith) in
      let mode =
        add_bytes 1 20 (uint64_field [] 1 sign_mode_direct) empty (omega arith) single.size
          (omega arith) in
      let one = add_bytes 1 (2 ^ 22) pk_any empty (omega arith) any.size (omega arith) in
      let two = add_bytes 2 40 mode_info one (omega arith) mode.size (omega arith) in
      weaken (2 ^ 24) (add_uint64 3 s.sequence two (omega arith) fits.sequence_fits) (omega arith)

  abbrev pub auth_fields : List Field
  auth_fields = bytes_of 1 (signer_info acct s) ∷ bytes_of 2 (fee_msg s) ∷ []

  abbrev pub fee_fields : List Field
  fee_fields = bytes_of 1 (coin s.denom s.fee) ∷ uint64_of 2 s.gas ∷ []

  pub fee_msg-Encodes : Encodes (fee_msg s) fee_fields (2 ^ 22)
  unfolding fee_msg
  fee_msg-Encodes =
      let c = coin-Encodes s.denom s.fee fits.denom_fits in
      let one =
        add_bytes 1 (2 ^ 21) (coin s.denom s.fee) empty (omega arith) c.size (omega arith) in
      weaken (2 ^ 22) (add_uint64 2 s.gas one (omega arith) fits.gas_fits) (omega arith)

  pub auth_info_bytes-Encodes : Encodes (auth_info_bytes acct s) auth_fields (2 ^ 25)
  unfolding auth_info_bytes
  auth_info_bytes-Encodes =
      let one =
        add_bytes 1 (2 ^ 24) (signer_info acct s) empty (omega arith) signer_info-Encodes.size
          (omega arith) in
      weaken (2 ^ 25)
        (add_bytes 2 (2 ^ 22) (fee_msg s) one (omega arith) fee_msg-Encodes.size (omega arith))
        (omega arith)

  abbrev pub signed_fields : List Field
  signed_fields = bytes_of 1 (body_bytes acct s) ∷ bytes_of 2 (auth_info_bytes acct s) ∷ []

  abbrev pub doc_fields : List Field
  doc_fields =
      bytes_of 1 (body_bytes acct s)
      ∷ bytes_of 2 (auth_info_bytes acct s)
      ∷ bytes_of 3 s.chain_id
      ∷ uint64_of 4 s.account_number
      ∷ []

  pub signed-Encodes :
      Encodes
        (bytes_field (bytes_field [] 1 (body_bytes acct s)) 2 (auth_info_bytes acct s))
        signed_fields
        (2 ^ 27)
  signed-Encodes =
      let one =
        add_bytes 1 (2 ^ 25) (body_bytes acct s) empty (omega arith) body_bytes-Encodes.size
          (omega arith) in
      weaken (2 ^ 27)
        (add_bytes 2 (2 ^ 25) (auth_info_bytes acct s) one (omega arith)
          auth_info_bytes-Encodes.size (omega arith))
        (omega arith)

  pub sign_doc-Encodes : Encodes (sign_doc acct s) doc_fields (2 ^ 28)
  unfolding sign_doc
  sign_doc-Encodes =
      let three =
        add_bytes 3 (2 ^ 20) s.chain_id signed-Encodes (omega arith) fits.chain_fits
          (omega arith) in
      weaken (2 ^ 28) (add_uint64 4 s.account_number three (omega arith) fits.number_fits)
        (omega arith)

  pub tx-Encodes :
      Encodes
        (build_signed_send acct s)
        (bytes_of 1 (body_bytes acct s)
          ∷ bytes_of 2 (auth_info_bytes acct s)
          ∷ bytes_of 3 (acct.sign (sign_doc acct s))
          ∷ [])
        (2 ^ 28)
  unfolding build_signed_send
  tx-Encodes =
      weaken (2 ^ 28)
        (add_bytes 3 (2 ^ 20) (acct.sign (sign_doc acct s)) signed-Encodes (omega arith)
          (fits.signature_fits (sign_doc acct s)) (omega arith))
        (omega arith)
