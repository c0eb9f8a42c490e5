-- ===== src/Protobuf/Reader.antt =====
-- `pbScan` and the two searches: they end on every input, and on what the writer made they find the
-- first field that is asked for.
use sentnodes_agent.Base.{
  IsU64, ℕ, zero, suc, ◌+◌, ◌-◌, ◌*◌, ◌/◌, ◌%◌, ◌^◌, ◌≤◌, ◌<◌, bit_and, Bool, true, false, none,
  arith, List, [], ◌∷◌, ◌++◌, length, length-append, drop, take-append, drop-append, All, ◌≡◌, refl,
  ap, ◌∙◌,
}
use sentnodes_agent.Base.Bits.{bit_and_mask}
use sentnodes_agent.Protobuf.{
  Bytes, varint_item, slice_item, Item, varint, bytes, read_slice, read_payload, behind_tag,
  read_item, Scan, done, answered, round, scan_from, want_bytes, want_varint, pb_bytes_field,
  pb_varint_field,
}
use sentnodes_agent.Protobuf.Uvarint.{groups, uvarint-groups}
use sentnodes_agent.Protobuf.Message.{
  Field, bytes_of, uint64_of, IsField, tag, field_bytes, message, find_bytes, find_uint64,
  length-field_bytes,
}
use mathlib.Core.List.{append_assoc}

read_slice-append :
    (f i n : ℕ) (val rest : Bytes)
    → i + length val < 2 ^ 63
    → read_slice f i n (length val) (val ++ rest) ≡ bytes f val (n + length val)
unfolding read_slice
read_slice-append f i n val rest h =
    let l : ℕ = length val in
    let e : (i + l) % 2 ^ 64 ≡ i + l = omega arith in
    let k : i + l - i ≡ l = omega arith in
    rw (e, k, take-append val rest) (ground (arith, length-append val rest))

read_payload-bytes :
    (f i n : ℕ) (val rest : Bytes)
    → length val < 2 ^ 62
    → i + (length (groups 9 (length val)) + length val) < 2 ^ 63
    → read_payload f 2 i n (groups 9 (length val) ++ (val ++ rest))
      ≡ bytes f val (n + (length (groups 9 (length val)) + length val))
unfolding read_payload
read_payload-bytes f i n val rest k h =
    let g : Bytes = groups 9 (length val) in
    ap (slice_item f i n (g ++ (val ++ rest)))
      (uvarint-groups (length val) (val ++ rest) (omega arith))
    ∙ ap (read_slice f (i + length g) (n + length g) (length val)) (drop-append g (val ++ rest))
    ∙ read_slice-append f (i + length g) (n + length g) val rest (omega arith)
    ∙ ap (bytes f val) (omega arith)

read_payload-uint64 :
    (f i n v : ℕ) (rest : Bytes)
    → IsU64 v
    → read_payload f 0 i n (groups 9 v ++ rest) ≡ varint f v (n + length (groups 9 v))
unfolding read_payload
read_payload-uint64 f i n v rest h = ap (varint_item f n) (uvarint-groups v rest h)

pub read_item-tag :
    (f wire i : ℕ) (rest : Bytes)
    → f < 2 ^ 29
    → wire < 8
    → read_item i (tag f wire ++ rest)
      ≡ read_payload f wire (i + length (tag f wire)) (length (tag f wire)) rest
unfolding read_item
read_item-tag f wire i rest h k =
    let number : (f * 8 + wire) / 2 ^ 3 ≡ f = omega arith in
    let kind : bit_and (f * 8 + wire) 7 ≡ wire = omega (arith, bit_and_mask 3 (f * 8 + wire)) in
    let n : ℕ = length (tag f wire) in
    ap (behind_tag i (tag f wire ++ rest)) (uvarint-groups (f * 8 + wire) rest (omega arith))
    ∙ (λ j. read_payload (number j) (kind j) (i + n) n (drop-append (tag f wire) rest j))

abbrev item_of : Field → ℕ → Item
item_of (bytes_of f val) n = bytes f val n
item_of (uint64_of f v) n = varint f v n

-- A round of the scan on a field that the writer made.
read_item-field_bytes :
    (x : Field) (i : ℕ) (rest : Bytes)
    → IsField x
    → i + length (field_bytes x) < 2 ^ 63
    → read_item i (field_bytes x ++ rest) ≡ item_of x (length (field_bytes x))
read_item-field_bytes (bytes_of f val) i rest (h, k) fits =
    let g : Bytes = groups 9 (length val) in
    let t : Bytes = tag f 2 in
    let all : length (t ++ (g ++ val)) ≡ length t + (length g + length val) =
      omega (arith, length-append t (g ++ val), length-append g val) in
    rw (all, append_assoc t (g ++ val) rest, append_assoc g val rest)
      (read_item-tag f 2 i (g ++ (val ++ rest)) h (omega arith)
        ∙ read_payload-bytes f (i + length t) (length t) val rest k (omega (arith, all)))
read_item-field_bytes (uint64_of f v) i rest (h, k) fits =
    let t : Bytes = tag f 0 in
    rw (length-append t (groups 9 v), append_assoc t (groups 9 v) rest)
      (read_item-tag f 0 i (groups 9 v ++ rest) h (omega arith)
        ∙ read_payload-uint64 f (i + length t) (length t) v rest k)

abbrev pub Callback {ℓ} : Type ℓ → Type ℓ
Callback S = ℕ → ℕ → Bytes → ℕ → S → S × Bool

-- What a callback makes of the fields of a message.
abbrev call {ℓ} : {S : Type ℓ} → Callback S → Field → S → S × Bool
call fn (bytes_of f val) s = fn f 2 val 0 s
call fn (uint64_of f v) s = fn f 0 [] v s

abbrev visit {ℓ} : {S : Type ℓ} → Callback S → List Field → S → S
visit fn [] s = s
visit fn (x ∷ xs) s = let r = call fn x s in elim r.1 [ true ↦ visit fn xs r.0 | false ↦ r.0 ]

module _ {ℓ} {S : Type ℓ} (fn : Callback S) where
  pub scan_from-round :
      (fuel i : ℕ) (buf : Bytes) (s : S)
      → 1 ≤ length buf
      → scan_from fn (suc fuel) i buf s
        ≡ round fn (λ n. scan_from fn fuel (i + n) (drop n buf)) (read_item i buf) s
  unfolding scan_from
  scan_from-round fuel i [] s h = absurd (omega arith)
  scan_from-round fuel i (b ∷ rest) s h = refl

  round-item_of :
      (x : Field) (n : ℕ) (next : ℕ → S → Scan S) (s : S)
      → round fn next (item_of x n) s ≡ answered fn (next n) (call fn x s)
  unfolding round
  round-item_of (bytes_of f val) n next s = refl
  round-item_of (uint64_of f v) n next s = refl

  answered-visit :
      (xs : List Field) (next : S → Scan S) (r : S × Bool)
      → ((s : S) → next s ≡ done (visit fn xs s))
      → answered fn next r ≡ done (elim r.1 [ true ↦ visit fn xs r.0 | false ↦ r.0 ])
  unfolding answered
  answered-visit xs next (s, true) h = h s
  answered-visit xs next (s, false) h = refl

  -- On a message of the writer the scan hands each field to the callback in turn.
  pub scan_from-message :
      (xs : List Field) (fuel i : ℕ) (s : S)
      → All IsField xs
      → i + length (message xs) < 2 ^ 63
      → length (message xs) ≤ fuel
      → scan_from fn fuel i (message xs) s ≡ done (visit fn xs s)
  scan_from-message [] fuel i s h fits enough = unfold scan_from in refl
  scan_from-message (x ∷ xs) zero i s h fits enough =
      absurd (omega (arith, length-append (field_bytes x) (message xs), length-field_bytes x))
  scan_from-message (x ∷ xs) (suc fuel) i s (hx, h) fits enough =
      let n : ℕ = length (field_bytes x) in
      let buf : Bytes = field_bytes x ++ message xs in
      let size : length buf ≡ n + length (message xs) =
        length-append (field_bytes x) (message xs) in
      let next = λ (k : ℕ). scan_from fn fuel (i + k) (drop k buf) in
      scan_from-round fuel i buf s (omega (arith, size, length-field_bytes x))
      ∙ ap (λ item. round fn next item s)
          (read_item-field_bytes x i (message xs) hx (omega (arith, size)))
      ∙ round-item_of x n next s
      ∙ answered-visit xs (next n) (call fn x s) (λ t.
        ap (λ rest. scan_from fn fuel (i + n) rest t) (drop-append (field_bytes x) (message xs))
        ∙ scan_from-message xs fuel (i + n) t h (omega (arith, size))
            (omega (arith, size, length-field_bytes x)))

-- A message that the writer made of fields, and that fits a Go slice.
pub record IsMessage (xs : List Field) : Type 0 where
  pub each : All IsField xs
  pub fits : length (message xs) < 2 ^ 63

visit_bytes : (num : ℕ) (xs : List Field) → visit (want_bytes num) xs none ≡ find_bytes num xs
unfolding want_bytes
visit_bytes num [] = refl
visit_bytes num (bytes_of f val ∷ xs) = ground (arith, visit_bytes num xs)
visit_bytes num (uint64_of f v ∷ xs) = ground (arith, visit_bytes num xs)

visit_varint : (num : ℕ) (xs : List Field) → visit (want_varint num) xs 0 ≡ find_uint64 num xs
unfolding want_varint
visit_varint num [] = refl
visit_varint num (bytes_of f val ∷ xs) = ground (arith, visit_varint num xs)
visit_varint num (uint64_of f v ∷ xs) = ground (arith, visit_varint num xs)

-- On a message of the writer that fits a slice `pbBytesField` finds the first field of the number
-- that holds bytes, and nil where there is none.
pub pb_bytes_field-message :
    (xs : List Field) (num : ℕ)
    → IsMessage xs
    → pb_bytes_field (message xs) num ≡ done (find_bytes num xs)
unfolding pb_bytes_field
pb_bytes_field-message xs num m =
    scan_from-message (want_bytes num) xs _ 0 none m.each (omega (arith, m.fits)) (omega arith)
    ∙ ap done (visit_bytes num xs)

-- On a message of the writer that fits a slice `pbVarintField` finds the first number of the
-- field, and 0 where there is none.
pub pb_varint_field-message :
    (xs : List Field) (num : ℕ)
    → IsMessage xs
    → pb_varint_field (message xs) num ≡ done (find_uint64 num xs)
unfolding pb_varint_field
pb_varint_field-message xs num m =
    scan_from-message (want_varint num) xs _ 0 0 m.each (omega (arith, m.fits)) (omega arith)
    ∙ ap done (visit_varint num xs)
