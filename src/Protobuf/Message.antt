-- ===== src/Protobuf/Message.antt =====
-- A protobuf message as the list of its fields, and the bytes that the writer makes of it.
use sentnodes_agent.Base.{
  IsU64, ℕ, ◌+◌, ◌*◌, ◌^◌, ◌≤◌, ◌<◌, Option, none, some, arith, List, [], ◌∷◌, ◌++◌, ◌==◌,
  if◌then◌else◌, length, length-append, ◌≡◌, ap, ◌∙◌,
}
use sentnodes_agent.Base.Bits.{bit_or_disjoint}
use sentnodes_agent.Protobuf.{Bytes, put_uvarint, put_tag, bytes_field, uint64_field}
use sentnodes_agent.Protobuf.Uvarint.{groups, length-groups, put_uvarint-groups}
use mathlib.Core.List.{append_assoc}

pub data Field : Type 0 where
  bytes_of : ℕ → Bytes → Field
  uint64_of : ℕ → ℕ → Field

-- Field numbers are those of protobuf.
abbrev pub IsNumber : ℕ → Type 0
IsNumber f = f < 2 ^ 29

abbrev pub IsField : Field → Type 0
IsField (bytes_of f val) = IsNumber f × (length val < 2 ^ 62)
IsField (uint64_of f v) = IsNumber f × IsU64 v

abbrev pub tag : ℕ → ℕ → Bytes
tag f wire = groups 9 (f * 8 + wire)

abbrev pub field_bytes : Field → Bytes
field_bytes (bytes_of f val) = tag f 2 ++ (groups 9 (length val) ++ val)
field_bytes (uint64_of f v) = tag f 0 ++ groups 9 v

-- The bytes of a message.
abbrev pub message : List Field → Bytes
message [] = []
message (x ∷ xs) = field_bytes x ++ message xs

put_tag-tag : (w : Bytes) (f wire : ℕ) → IsNumber f → wire < 8 → put_tag w f wire ≡ w ++ tag f wire
unfolding put_tag
put_tag-tag w f wire h k =
    ap (put_uvarint w) (bit_or_disjoint 3 f wire k)
    ∙ put_uvarint-groups w (f * 8 + wire) (omega arith)

-- A call of `bytesField` appends the field.
pub bytes_field-field_bytes :
    (w : Bytes) (f : ℕ) (val : Bytes)
    → IsField (bytes_of f val)
    → bytes_field w f val ≡ w ++ field_bytes (bytes_of f val)
unfolding bytes_field
bytes_field-field_bytes w f val (h, k) =
    rw
      (
        put_tag-tag w f 2 h (omega arith),
        put_uvarint-groups (w ++ tag f 2) (length val) (omega arith),
      )
      (simp append_assoc)

pub uint64_field-field_bytes :
    (w : Bytes) (f v : ℕ)
    → IsField (uint64_of f v)
    → uint64_field w f v ≡ w ++ field_bytes (uint64_of f v)
unfolding uint64_field
uint64_field-field_bytes w f v (h, k) =
    rw (put_tag-tag w f 0 h (omega arith), put_uvarint-groups (w ++ tag f 0) v k)
      (simp append_assoc)

-- What a reader should find: the first field of a number and kind.
abbrev pub find_bytes : ℕ → List Field → Option Bytes
find_bytes num [] = none
find_bytes num (bytes_of f val ∷ xs) = if f == num then some val else find_bytes num xs
find_bytes num (uint64_of f v ∷ xs) = find_bytes num xs

-- A number that is absent is 0, as in proto3.
abbrev pub find_uint64 : ℕ → List Field → ℕ
find_uint64 num [] = 0
find_uint64 num (bytes_of f val ∷ xs) = find_uint64 num xs
find_uint64 num (uint64_of f v ∷ xs) = if f == num then v else find_uint64 num xs

pub length-field_bytes : (x : Field) → 2 ≤ length (field_bytes x)
length-field_bytes (bytes_of f val) = omega (
  arith,
  length-append (tag f 2) (groups 9 (length val) ++ val),
  length-append (groups 9 (length val)) val,
  length-groups 9 (f * 8 + 2),
  length-groups 9 (length val),
)
length-field_bytes (uint64_of f v) = omega (
  arith,
  length-append (tag f 0) (groups 9 v),
  length-groups 9 (f * 8),
  length-groups 9 (f * 8 + 0),
  length-groups 9 v,
)
