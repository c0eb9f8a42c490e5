-- ===== src/Chain/Tx.antt =====
-- What a node reads in the transaction of `BuildSignedSend`, and what its signature covers.
use sentnodes_agent.Base.{ℕ, Option, none, some, List, [], ◌∷◌, arith, ◌≡◌, sym, ap, ◌∙◌}
use sentnodes_agent.Chain.{Send, msg_send, body_bytes, sign_doc, build_signed_send}
use sentnodes_agent.Chain.Fields.{
  Fits, coin-Encodes, msg_send-Encodes, send_any-Encodes, body_bytes-Encodes, fee_msg-Encodes,
  auth_info_bytes-Encodes, sign_doc-Encodes, tx-Encodes,
}
use sentnodes_agent.Decimal.{format_uint}
use sentnodes_agent.Keys.{Account}
use sentnodes_agent.Protobuf.{Bytes, pb_bytes_field, pb_varint_field, Scan, done, panic, stuck}
use sentnodes_agent.Protobuf.Encodes.{read_bytes, read_uint64}

-- Goes on to the field of a message that a search has found.
abbrev pub and_then : Scan (Option Bytes) → ℕ → Scan (Option Bytes)
and_then (done (some b)) num = pb_bytes_field b num
and_then (done none) num = done none
and_then panic num = panic
and_then stuck num = stuck

-- Follows field numbers from a message down into the messages that it holds.
abbrev pub dig : Scan (Option Bytes) → List ℕ → Scan (Option Bytes)
dig found [] = found
dig found (num ∷ nums) = dig (and_then found num) nums

abbrev pub field_at : Bytes → List ℕ → Scan (Option Bytes)
field_at b = dig (done (some b))

module _ (acct : Account) (s : Send) (fits : Fits acct s) where
  -- For texts of at most 2 ^ 20 bytes and uint64s: the coin, the sender and the recipient stand in
  -- the one message of the body, and the fee in the authentication info; the amounts read back as
  -- the numbers that were given.
  pub build_signed_send_pays :
      let tx = build_signed_send acct s in
      (field_at tx (1 ∷ 1 ∷ 2 ∷ 1 ∷ []) ≡ done (some acct.operator_addr))
      × (field_at tx (1 ∷ 1 ∷ 2 ∷ 2 ∷ []) ≡ done (some s.to))
      × (field_at tx (1 ∷ 1 ∷ 2 ∷ 3 ∷ 1 ∷ []) ≡ done (some s.denom))
      × (field_at tx (1 ∷ 1 ∷ 2 ∷ 3 ∷ 2 ∷ []) ≡ done (some (format_uint s.amount)))
      × (field_at tx (2 ∷ 2 ∷ 1 ∷ 2 ∷ []) ≡ done (some (format_uint s.fee)))
  build_signed_send_pays =
      let tx = tx-Encodes acct s fits in
      let send = msg_send-Encodes acct s fits in
      let paid = coin-Encodes s.denom s.amount fits.denom_fits in
      let to_send : field_at (build_signed_send acct s) (1 ∷ 1 ∷ 2 ∷ [])
          ≡ done (some (msg_send acct s)) =
        ap (λ r. dig r (1 ∷ 2 ∷ [])) (read_bytes tx (omega arith) 1)
        ∙ ap (λ r. dig r (2 ∷ [])) (read_bytes (body_bytes-Encodes acct s fits) (omega arith) 1)
        ∙ read_bytes (send_any-Encodes acct s fits) (omega arith) 2 in
      let to_coin = ap (λ r. and_then r 3) to_send ∙ read_bytes send (omega arith) 3 in
      let to_fee =
        ap (λ r. dig r (2 ∷ 1 ∷ [])) (read_bytes tx (omega arith) 2)
        ∙ ap (λ r. and_then r 1) (read_bytes (auth_info_bytes-Encodes acct s fits) (omega arith) 2)
        ∙ read_bytes (fee_msg-Encodes acct s fits) (omega arith) 1 in
      (
        ap (λ r. and_then r 1) to_send ∙ read_bytes send (omega arith) 1,
        ap (λ r. and_then r 2) to_send ∙ read_bytes send (omega arith) 2,
        ap (λ r. and_then r 1) to_coin ∙ read_bytes paid (omega arith) 1,
        ap (λ r. and_then r 2) to_coin ∙ read_bytes paid (omega arith) 2,
        ap (λ r. and_then r 2) to_fee
            ∙ read_bytes (coin-Encodes s.denom s.fee fits.denom_fits) (omega arith) 2,
      )

  -- For texts of at most 2 ^ 20 bytes and uint64s: the signature in the transaction is that of the
  -- sign document, and the document holds the very body and authentication info of the
  -- transaction, the chain and the account number.
  pub build_signed_send_signs :
      let tx = build_signed_send acct s in
      let doc = sign_doc acct s in
      (pb_bytes_field tx 3 ≡ done (some (acct.sign doc)))
      × (pb_bytes_field doc 1 ≡ pb_bytes_field tx 1)
      × (pb_bytes_field doc 2 ≡ pb_bytes_field tx 2)
      × (pb_bytes_field doc 3 ≡ done (some s.chain_id))
      × (pb_varint_field doc 4 ≡ done s.account_number)
      × (field_at tx (1 ∷ []) ≡ done (some (body_bytes acct s)))
  build_signed_send_signs =
      let tx = tx-Encodes acct s fits in
      let doc = sign_doc-Encodes acct s fits in
      (
        read_bytes tx (omega arith) 3,
        read_bytes doc (omega arith) 1 ∙ sym (read_bytes tx (omega arith) 1),
        read_bytes doc (omega arith) 2 ∙ sym (read_bytes tx (omega arith) 2),
        read_bytes doc (omega arith) 3,
        read_uint64 doc (omega arith) 4,
        read_bytes tx (omega arith) 1,
      )
