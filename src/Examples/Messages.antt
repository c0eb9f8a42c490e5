-- ===== src/Examples/Messages.antt =====
-- Concrete messages: internal/chain/chain.go and internal/keys/keys.go.
use sentnodes_agent.Base.{ℕ, ◌^◌, List, [], ◌∷◌, ◌++◌, none, some, arith, ◌≡◌, refl}
use sentnodes_agent.Base.Text.{codes}
use sentnodes_agent.Chain.{Send, build_signed_send, sign_doc, body_bytes}
use sentnodes_agent.Chain.Fields.{Fits}
use sentnodes_agent.Chain.Tx.{field_at, build_signed_send_pays, build_signed_send_signs}
use sentnodes_agent.Decimal.{format_uint}
use sentnodes_agent.Keys.{Account, found, extract_priv_key, pb_bytes}
use sentnodes_agent.Keys.Extract.{
  answer, LocalKey, extract_priv_key-LocalKey, pb_bytes-pb_bytes_field,
}
use sentnodes_agent.Protobuf.{
  Bytes, done, panic, stuck, scan, want_bytes, pb_bytes_field, pb_varint_field,
}
use sentnodes_agent.Protobuf.Crash.{scan-ne-stuck, scan_panics}
use sentnodes_agent.Protobuf.Message.{Field, bytes_of, uint64_of, tag, message}
use sentnodes_agent.Protobuf.Reader.{IsMessage}
use sentnodes_agent.Protobuf.Uvarint.{groups}

abbrev pub operator : Account
operator = record {
  identity = record {
    pub_compressed = 2 ∷ 7 ∷ [];
    operator_addr = codes "sent1abc";
    node_addr = codes "sentnode1abc";
  };
  sign = λ msg. 1 ∷ 2 ∷ [];
}

abbrev payment : Send
payment = record {
  chain_id = codes "sentinelhub-2";
  to = codes "sent1xyz";
  denom = codes "udvpn";
  amount = 300;
  fee = 20;
  gas = 200000;
  account_number = 5;
  sequence = 9;
  memo = codes "memo";
}

payment-Fits : Fits operator payment
payment-Fits = record {
  from_fits = omega arith;
  key_fits = omega arith;
  signature_fits = λ msg. omega arith;
  chain_fits = omega arith;
  to_fits = omega arith;
  denom_fits = omega arith;
  memo_fits = omega arith;
  gas_fits = omega arith;
  number_fits = omega arith;
  sequence_fits = omega arith;
}

build_signed_send_pays_example :
    let tx = build_signed_send operator payment in
    (field_at tx (1 ∷ 1 ∷ 2 ∷ 1 ∷ []) ≡ done (some operator.operator_addr))
    × (field_at tx (1 ∷ 1 ∷ 2 ∷ 2 ∷ []) ≡ done (some payment.to))
    × (field_at tx (1 ∷ 1 ∷ 2 ∷ 3 ∷ 1 ∷ []) ≡ done (some payment.denom))
    × (field_at tx (1 ∷ 1 ∷ 2 ∷ 3 ∷ 2 ∷ []) ≡ done (some (format_uint payment.amount)))
    × (field_at tx (2 ∷ 2 ∷ 1 ∷ 2 ∷ []) ≡ done (some (format_uint payment.fee)))
build_signed_send_pays_example = build_signed_send_pays operator payment payment-Fits

build_signed_send_signs_example :
    let tx = build_signed_send operator payment in
    let doc = sign_doc operator payment in
    (pb_bytes_field tx 3 ≡ done (some (operator.sign doc)))
    × (pb_bytes_field doc 1 ≡ pb_bytes_field tx 1)
    × (pb_bytes_field doc 2 ≡ pb_bytes_field tx 2)
    × (pb_bytes_field doc 3 ≡ done (some payment.chain_id))
    × (pb_varint_field doc 4 ≡ done payment.account_number)
    × (field_at tx (1 ∷ []) ≡ done (some (body_bytes operator payment)))
build_signed_send_signs_example = build_signed_send_signs operator payment payment-Fits

abbrev fields_two : List Field
fields_two = uint64_of 4 17 ∷ bytes_of 2 (5 ∷ 6 ∷ []) ∷ []

fields_two-IsMessage : IsMessage fields_two
unfolding groups
fields_two-IsMessage = record { each = ground arith; fits = omega arith }

scan-ne-stuck_example : ¬ (scan (want_bytes 2) (18 ∷ 9 ∷ []) none ≡ stuck)
scan-ne-stuck_example = scan-ne-stuck (want_bytes 2) (18 ∷ 9 ∷ []) none

scan_panics_example : scan (want_bytes 2) (tag 2 2 ++ (groups 9 (2 ^ 63) ++ 1 ∷ [])) none ≡ panic
scan_panics_example =
    scan_panics (want_bytes 2) none 2 (2 ^ 63) (1 ∷ []) (omega arith) (omega arith) (omega arith)

pb_bytes-pb_bytes_field_example :
    answer (pb_bytes (18 ∷ 1 ∷ 7 ∷ []) 2) ≡ pb_bytes_field (18 ∷ 1 ∷ 7 ∷ []) 2
pb_bytes-pb_bytes_field_example = pb_bytes-pb_bytes_field (18 ∷ 1 ∷ 7 ∷ []) 2

abbrev pub zero_key : ℕ → Bytes
zero_key ℕ.zero = []
zero_key (ℕ.suc n) = 1 ∷ zero_key n

abbrev pub val_fields : List Field
val_fields = bytes_of 1 (zero_key 32) ∷ []

abbrev pub any_fields : List Field
any_fields = bytes_of 1 (codes "/key") ∷ bytes_of 2 (message val_fields) ∷ []

abbrev pub local_fields : List Field
local_fields = bytes_of 1 (message any_fields) ∷ []

abbrev pub record_fields : List Field
record_fields = bytes_of 1 (codes "operator") ∷ bytes_of 3 (message local_fields) ∷ []

pub record_fields-LocalKey : LocalKey record_fields local_fields any_fields val_fields (zero_key 32)
unfolding groups
record_fields-LocalKey = record {
  rec_IsMessage = record { each = ground arith; fits = omega arith };
  local_IsMessage = record { each = ground arith; fits = omega arith };
  any_IsMessage = record { each = ground arith; fits = omega arith };
  val_IsMessage = record { each = ground arith; fits = omega arith };
  in_rec = refl;
  in_local = refl;
  in_any = refl;
  in_val = refl;
  key_length = refl;
}

extract_priv_key-LocalKey_example : extract_priv_key (message record_fields) ≡ found (zero_key 32)
extract_priv_key-LocalKey_example =
    extract_priv_key-LocalKey record_fields local_fields any_fields val_fields (zero_key 32)
      record_fields-LocalKey
