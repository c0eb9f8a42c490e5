-- ===== src/Decimal/Laws.antt =====
-- Reading back what `FormatUint` writes.
use sentnodes_agent.Base.{
  ℕ, zero, suc, ◌+◌, ◌*◌, ◌/◌, ◌%◌, ◌^◌, ◌≤◌, ◌<◌, [], ◌∷◌, ltb, arith, ◌≡◌, refl, ap, ◌∙◌,
  Bool-cases, inl, inr, length, IsU64, ◌-◌,
}
use sentnodes_agent.Base.Text.{Text}
use sentnodes_agent.Decimal.{
  format_digits, format_uint, value, parse_digits, parse_uint, parsed_value, is_digit,
}

-- Reading digits that are in front of `rest` gives the number, read on from 0.
parse_digits-digit :
    (n d : ℕ) (s : Text)
    → d < 10
    → n * 10 + d < 2 ^ 64
    → parse_digits n ((b'0' + d) ∷ s) ≡ parse_digits (n * 10 + d) s
unfolding parse_digits
parse_digits-digit n d s h k = ground arith

parse_digits-format_digits :
    (fuel v : ℕ) (out : Text)
    → v < 10 ^ fuel
    → v < 2 ^ 64
    → parse_digits 0 (format_digits fuel v out) ≡ parse_digits v out
unfolding format_digits
parse_digits-format_digits zero v out h k = ap (λ (n : ℕ). parse_digits n out) (omega arith)
parse_digits-format_digits (suc fuel) v out h k = elim (Bool-cases (ltb v 10)) [
  | inl p ↦ rw p (
      parse_digits-digit 0 v out (ground arith) (omega arith)
      ∙ ap (λ (n : ℕ). parse_digits n out) (omega arith))
  | inr p ↦ rw p (
      parse_digits-format_digits fuel (v / 10) ((b'0' + v % 10) ∷ out) (omega arith) (omega arith)
      ∙ parse_digits-digit (v / 10) (v % 10) out (omega arith) (omega arith)
      ∙ ap (λ (n : ℕ). parse_digits n out) (omega arith))
]

length-format_digits : (fuel v : ℕ) (out : Text) → length out ≤ length (format_digits fuel v out)
unfolding format_digits
length-format_digits zero v out = omega arith
length-format_digits (suc fuel) v out =
    ground (arith, length-format_digits fuel (v / 10) ((b'0' + v % 10) ∷ out))

pub length-format_uint : (v : ℕ) → 1 ≤ length (format_uint v)
unfolding format_uint
length-format_uint v = ground (arith, length-format_digits 19 (v / 10) ((b'0' + v % 10) ∷ []))

parse_uint-parse_digits : (s : Text) → 1 ≤ length s → parse_uint s ≡ parse_digits 0 s
unfolding parse_uint
parse_uint-parse_digits [] h = absurd (omega arith)
parse_uint-parse_digits (c ∷ s) h = refl

-- `ParseUint` reads back every uint64 that `FormatUint` wrote.
pub parse_uint-format_uint : (v : ℕ) → v < 2 ^ 64 → parse_uint (format_uint v) ≡ value v
parse_uint-format_uint v h =
    parse_uint-parse_digits (format_uint v) (length-format_uint v)
    ∙ unfold format_uint in
      parse_digits-format_digits 20 v [] (omega arith) h ∙ unfold parse_digits in refl

length-format_digits_le :
    (fuel v : ℕ) (out : Text) → length (format_digits fuel v out) ≤ fuel + length out
unfolding format_digits
length-format_digits_le zero v out = omega arith
length-format_digits_le (suc fuel) v out =
    ground (arith, length-format_digits_le fuel (v / 10) ((b'0' + v % 10) ∷ out))

pub length-format_uint_le : (v : ℕ) → length (format_uint v) ≤ 20
unfolding format_uint
length-format_uint_le v = omega (arith, length-format_digits_le 20 v [])

parsed_digits-IsU64 : (n : ℕ) (s : Text) → IsU64 n → IsU64 (parsed_value (parse_digits n s))
unfolding parse_digits
parsed_digits-IsU64 n [] h = h
parsed_digits-IsU64 n (c ∷ s) h = elim (Bool-cases (is_digit c)) [
  | inl d ↦ elim (Bool-cases (ltb (n * 10 + (c - b'0')) (2 ^ 64))) [
    | inl fits ↦ rw (d, fits) (parsed_digits-IsU64 (n * 10 + (c - b'0')) s (ground arith))
    | inr over ↦ rw (d, over) (omega arith)
  ]
  | inr d ↦ rw d (omega arith)
]

-- What `ParseUint` returns beside its error is a uint64.
pub parsed_value-IsU64 : (s : Text) → IsU64 (parsed_value (parse_uint s))
unfolding parse_uint
parsed_value-IsU64 [] = omega arith
parsed_value-IsU64 (c ∷ s) = parsed_digits-IsU64 0 (c ∷ s) (omega arith)
