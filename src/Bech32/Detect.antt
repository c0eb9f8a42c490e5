-- ===== src/Bech32/Detect.antt =====
-- A single wrong character in an address never passes `IsValid`.
use sentnodes_agent.Base.{
  ℕ, zero, suc, ◌^◌, ◌≤◌, ◌<◌, bit_xor, true, false, Option, none, some, List, [], ◌∷◌, ◌++◌,
  ==_iff, length, All, ◌≡◌, ◌≢◌, refl, sym, ap, ◌∙◌, arith, length-append, get_or,
}
use sentnodes_agent.Base.Bits.{bit_xor-zero, bit_xor_cancel, bit_xor-lt_pow, bit_xor_self}
use sentnodes_agent.Base.Text.{Text, index_byte}
use sentnodes_agent.Base.Text.Laws.{IsPlain}
use sentnodes_agent.Bech32.{
  charset, poly_step, polymod, hrp_expand, symbol_values, cons_value, is_valid,
}
use sentnodes_agent.Bech32.Checksum.{
  IsSymbol, poly_step-bit_xor, poly_step-lt, poly_step-eq-zero, poly_step_small,
}
use sentnodes_agent.Bech32.Valid.{IsDatum, verdict, is_valid-verdict}
use mathlib.Core.Path.{ap₂}
use mathlib.Core.List.{foldl, foldl-append, append_assoc}

-- What later rounds make of a difference in the checksum.
carry : List ℕ → ℕ → ℕ
carry [] x = x
carry (d ∷ ds) x = carry ds (poly_step x 0)

foldl-carry :
    (ds : List ℕ) (a x : ℕ)
    → foldl poly_step (bit_xor a x) ds ≡ bit_xor (foldl poly_step a ds) (carry ds x)
unfolding carry
foldl-carry [] a x = refl
foldl-carry (d ∷ ds) a x =
    ap (λ (t : ℕ). foldl poly_step t ds)
      (ap (poly_step (bit_xor a x)) (sym (bit_xor-zero d)) ∙ poly_step-bit_xor a x d 0)
    ∙ foldl-carry ds (poly_step a d) (poly_step x 0)

carry-eq-zero : (ds : List ℕ) (x : ℕ) → x < 2 ^ 30 → carry ds x ≡ 0 → x ≡ 0
unfolding carry
carry-eq-zero [] x h e = e
carry-eq-zero (d ∷ ds) x h e =
    poly_step-eq-zero x h (carry-eq-zero ds (poly_step x 0) (poly_step-lt x 0 h (omega arith)) e)

bit_xor-eq-zero : (a b : ℕ) → bit_xor a b ≡ 0 → a ≡ b
bit_xor-eq-zero a b e = sym (bit_xor-zero a) ∙ ap (bit_xor a) (sym e) ∙ bit_xor_cancel a b

-- Lists that differ in one place, where both have a symbol below 32, have different checksums.
pub polymod-ne :
    (front back : List ℕ) (v w : ℕ)
    → IsSymbol v
    → IsSymbol w
    → v ≢ w
    → polymod (front ++ v ∷ back) ≢ polymod (front ++ w ∷ back)
unfolding polymod
polymod-ne front back v w hv hw ne e =
    let c : ℕ = foldl poly_step 1 front in
    let x : ℕ = bit_xor v w in
    let x_lt : x < 32 = bit_xor-lt_pow 5 v w hv hw in
    let last : ℕ = foldl poly_step (poly_step c v) back in
    let turned : poly_step c w ≡ bit_xor (poly_step c v) x =
      ap₂ poly_step (sym (bit_xor-zero c)) (sym (bit_xor_cancel v w))
      ∙ poly_step-bit_xor c 0 v x
      ∙ ap (bit_xor (poly_step c v)) (omega (arith, poly_step_small 0 x (omega arith) x_lt)) in
    let same : last ≡ bit_xor last (carry back x) =
      sym (foldl-append poly_step 1 front (v ∷ back))
      ∙ e
      ∙ foldl-append poly_step 1 front (w ∷ back)
      ∙ ap (λ (t : ℕ). foldl poly_step t back) turned
      ∙ foldl-carry back (poly_step c v) x in
    let none_left : carry back x ≡ 0 =
      sym (bit_xor_cancel last (carry back x)) ∙ ap (bit_xor last) (sym same) ∙ bit_xor_self last in
    ne (bit_xor-eq-zero v w (carry-eq-zero back x (omega arith) none_left))

abbrev append_values : Option (List ℕ) → Option (List ℕ) → Option (List ℕ)
append_values none t = none
append_values (some s) none = none
append_values (some s) (some t) = some (s ++ t)

symbol_values-append :
    (s t : Text) → symbol_values (s ++ t) ≡ append_values (symbol_values s) (symbol_values t)
unfolding symbol_values
symbol_values-append [] t = append-none (symbol_values t)
  where
    append-none : (o : Option (List ℕ)) → o ≡ append_values (some []) o
    append-none none = refl
    append-none (some ds) = refl
symbol_values-append (c ∷ s) t =
    ap (cons_value (index_byte charset c)) (symbol_values-append s t)
    ∙ regroup (index_byte charset c) (symbol_values s) (symbol_values t)
  where
    regroup :
        (i : Option ℕ) (a b : Option (List ℕ))
        → cons_value i (append_values a b) ≡ append_values (cons_value i a) b
    regroup none a b = refl
    regroup (some i) none b = refl
    regroup (some i) (some a) none = refl
    regroup (some i) (some a) (some b) = refl

index_byte-get_or :
    (s : Text) (c i : ℕ) → index_byte s c ≡ some i → (get_or s i 0 ≡ c) × (i < length s)
unfolding index_byte
index_byte-get_or [] c i e = cc
index_byte-get_or (d ∷ s) c zero e = ground (arith, ==_iff d c)
index_byte-get_or (d ∷ s) c (suc i) e = ground (arith, index_byte-get_or s c i)

charset-injective :
    (a b i : ℕ) → index_byte charset a ≡ some i → index_byte charset b ≡ some i → a ≡ b
charset-injective a b i e f =
    sym (index_byte-get_or charset a i e).0 ∙ (index_byte-get_or charset b i f).0

-- The verdict when one symbol is exchanged for another.
swap_verdict :
    (hrp : Text) (front back : Option (List ℕ)) (i j : Option ℕ)
    → ((v : ℕ) → i ≡ some v → j ≢ some v)
    → ((v : ℕ) → i ≡ some v → IsSymbol v)
    → ((w : ℕ) → j ≡ some w → IsSymbol w)
    → verdict hrp (append_values front (cons_value i back)) ≡ true
    → verdict hrp (append_values front (cons_value j back)) ≡ false
swap_verdict hrp none back i j ne hi hj e = cc
swap_verdict hrp (some f) back none j ne hi hj e = cc
swap_verdict hrp (some f) none (some v) j ne hi hj e = cc
swap_verdict hrp (some f) (some b) (some v) none ne hi hj e = refl
swap_verdict hrp (some f) (some b) (some v) (some w) ne hi hj e = ground (
  arith,
  polymod-ne (hrp_expand hrp ++ f) b v w (hi v refl) (hj w refl) (λ q. ne v refl (ap some (sym q))),
  append_assoc (hrp_expand hrp) f (v ∷ b),
  append_assoc (hrp_expand hrp) f (w ∷ b),
)

-- An address that `IsValid` accepts is refused once a single character behind the separator is
-- another one, whether or not that is in the charset. The prefix and what stands behind the separator
-- are visible and without capitals, the latter also without `1` and at least six characters long.
pub is_valid_detects :
    (hrp front back : Text) (c d : ℕ)
    → All IsPlain hrp
    → 1 ≤ length hrp
    → All IsDatum (front ++ c ∷ back)
    → All IsDatum (front ++ d ∷ back)
    → 6 ≤ length (front ++ c ∷ back)
    → c ≢ d
    → is_valid (hrp ++ b'1' ∷ (front ++ c ∷ back)) hrp ≡ true
    → is_valid (hrp ++ b'1' ∷ (front ++ d ∷ back)) hrp ≡ false
is_valid_detects hrp front back c d h k hc hd long ne e =
    let long' : 6 ≤ length (front ++ d ∷ back) =
      omega (arith, length-append front (c ∷ back), length-append front (d ∷ back)) in
    let before : verdict hrp (append_values (symbol_values front) (symbol_values (c ∷ back)))
        ≡ true =
      ap (verdict hrp) (sym (symbol_values-append front (c ∷ back)))
      ∙ sym (is_valid-verdict hrp (front ++ c ∷ back) h k hc long)
      ∙ e in
    is_valid-verdict hrp (front ++ d ∷ back) h k hd long'
    ∙ ap (verdict hrp) (symbol_values-append front (d ∷ back))
    ∙ unfold symbol_values in
      swap_verdict hrp (symbol_values front) (symbol_values back) (index_byte charset c)
        (index_byte charset d) (λ v p q. ne (charset-injective c d v p q))
        (λ v p. (index_byte-get_or charset c v p).1) (λ w p. (index_byte-get_or charset d w p).1)
        before
