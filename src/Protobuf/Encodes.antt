-- ===== src/Protobuf/Encodes.antt =====
-- Buffers that calls of the writer have built, field by field.
use sentnodes_agent.Base.{
  IsU64, ℕ, ◌+◌, ◌*◌, ◌^◌, ◌≤◌, ◌<◌, List, [], ◌∷◌, ◌++◌, arith, length, length-append, All,
  All-append, ◌≡◌, refl, sym, ap, ◌∙◌,
}
use sentnodes_agent.Protobuf.{
  Bytes, bytes_field, uint64_field, pb_bytes_field, pb_varint_field, done,
}
use sentnodes_agent.Protobuf.Message.{
  Field, bytes_of, uint64_of, IsField, IsNumber, tag, field_bytes, message, find_bytes, find_uint64,
  bytes_field-field_bytes, uint64_field-field_bytes,
}
use sentnodes_agent.Protobuf.Reader.{IsMessage, pb_bytes_field-message, pb_varint_field-message}
use sentnodes_agent.Protobuf.Uvarint.{groups, length-groups}
use mathlib.Core.List.{append_assoc, append-nil}

message-append : (xs ys : List Field) → message (xs ++ ys) ≡ message xs ++ message ys
message-append [] ys = refl
message-append (x ∷ xs) ys =
    ap (λ t. field_bytes x ++ t) (message-append xs ys)
    ∙ sym (append_assoc (field_bytes x) (message xs) (message ys))

-- `b` is the message of the fields `xs`, and takes at most `n` bytes.
pub record Encodes (b : Bytes) (xs : List Field) (n : ℕ) : Type 0 where
  pub same : b ≡ message xs
  pub each : All IsField xs
  pub size : length b ≤ n

pub empty : Encodes [] [] 0
empty = record { same = refl; each = tt; size = omega arith }

pub weaken : {b : Bytes} {xs : List Field} {n : ℕ} (m : ℕ) → Encodes b xs n → n ≤ m → Encodes b xs m
weaken m e h = record { same = e.same; each = e.each; size = omega (arith, e.size) }

pub add_bytes :
    {w : Bytes} {xs : List Field} {n : ℕ} (f m : ℕ) (val : Bytes)
    → Encodes w xs n
    → IsNumber f
    → length val ≤ m
    → m < 2 ^ 40
    → Encodes (bytes_field w f val) (xs ++ bytes_of f val ∷ []) (n + m + 20)
add_bytes {w} {xs} {n} f m val e h k l =
    let field : IsField (bytes_of f val) = (h, omega arith) in
    let same = bytes_field-field_bytes w f val field in
    record {
      same =
          same
          ∙ ap (λ t. t ++ field_bytes (bytes_of f val)) e.same
          ∙ ap (λ t. message xs ++ t) (sym (append-nil (field_bytes (bytes_of f val))))
          ∙ sym (message-append xs (bytes_of f val ∷ []));
      each = All-append IsField xs (bytes_of f val ∷ []) e.each (field, tt);
      size = omega (
        arith,
        ap length same,
        e.size,
        length-append w (field_bytes (bytes_of f val)),
        length-append (tag f 2) (groups 9 (length val) ++ val),
        length-append (groups 9 (length val)) val,
        length-groups 9 (f * 8 + 2),
        length-groups 9 (length val),
      );
    }

pub add_uint64 :
    {w : Bytes} {xs : List Field} {n : ℕ} (f v : ℕ)
    → Encodes w xs n
    → IsNumber f
    → IsU64 v
    → Encodes (uint64_field w f v) (xs ++ uint64_of f v ∷ []) (n + 20)
add_uint64 {w} {xs} {n} f v e h k =
    let same = uint64_field-field_bytes w f v (h, k) in
    record {
      same =
          same
          ∙ ap (λ t. t ++ field_bytes (uint64_of f v)) e.same
          ∙ ap (λ t. message xs ++ t) (sym (append-nil (field_bytes (uint64_of f v))))
          ∙ sym (message-append xs (uint64_of f v ∷ []));
      each = All-append IsField xs (uint64_of f v ∷ []) e.each ((h, k), tt);
      size = omega (
        arith,
        ap length same,
        e.size,
        length-append w (field_bytes (uint64_of f v)),
        length-append (tag f 0) (groups 9 v),
        length-groups 9 (f * 8 + 0),
        length-groups 9 v,
      );
    }

module _ {b : Bytes} {xs : List Field} {n : ℕ} (e : Encodes b xs n) (h : n < 2 ^ 63) where
  valid : IsMessage xs
  valid = record { each = e.each; fits = omega (arith, ap length e.same, e.size) }

  pub read_bytes : (num : ℕ) → pb_bytes_field b num ≡ done (find_bytes num xs)
  read_bytes num = ap (λ t. pb_bytes_field t num) e.same ∙ pb_bytes_field-message xs num valid

  pub read_uint64 : (num : ℕ) → pb_varint_field b num ≡ done (find_uint64 num xs)
  read_uint64 num = ap (λ t. pb_varint_field t num) e.same ∙ pb_varint_field-message xs num valid
