-- ===== src/Bech32/Checksum.antt =====
-- `polymod` is linear over exclusive or.
use sentnodes_agent.Base.{
  ℕ, suc, ◌+◌, ◌*◌, ◌/◌, ◌%◌, ◌^◌, bit_and, bit_xor, ◌≡◌, refl, sym, ap, ◌∙◌, List, [], ◌∷◌, ◌<◌,
  arith, ltb, ◌==◌, if◌then◌else◌, All, true, ◌||◌,
}
use sentnodes_agent.Base.Bits.{
  bit_xor_assoc, bit_xor_swap, bit_xor-zero, zero-bit_xor, bit_and_mask, bit_xor-lt_pow,
  bit_xor_self, bit_xor-div_pow, bit_xor-mod_pow, bit_xor-mul_pow, bit_xor-mod_two,
  bit_xor_disjoint,
}
use sentnodes_agent.Bech32.{gen, mix, poly_step, zeros}
use sentnodes_agent.Base.Bits.{all_below, all_below_sound}
use mathlib.Core.List.{foldl}
use mathlib.Core.Path.{ap₂}

bit_and_one : (a : ℕ) → bit_and a 1 ≡ a % 2
bit_and_one a = bit_and_mask 1 a

abbrev pick : ℕ → ℕ → ℕ
pick bit g = if bit == 1 then g else 0

pick-bit_xor : (a b g : ℕ) → a < 2 → b < 2 → pick ((a + b) % 2) g ≡ bit_xor (pick a g) (pick b g)
pick-bit_xor a b g h k =
    ground (arith, bit_xor-zero g, zero-bit_xor g, bit_xor_self g, bit_xor-zero 0)

-- The generator terms that the bits of `b` choose, in one number.
pub chosen : ℕ → List ℕ → ℕ → ℕ
chosen i [] b = 0
chosen i (g ∷ gs) b = bit_xor (pick (b / 2 ^ i % 2) g) (chosen (suc i) gs b)

mix-chosen : (i : ℕ) (gs : List ℕ) (b chk : ℕ) → mix i gs b chk ≡ bit_xor chk (chosen i gs b)
unfolding mix chosen
mix-chosen i [] b chk = sym (bit_xor-zero chk)
mix-chosen i (g ∷ gs) b chk = ground (
  arith,
  bit_and_one (b / 2 ^ i),
  mix-chosen (suc i) gs b chk,
  mix-chosen (suc i) gs b (bit_xor chk g),
  bit_xor_assoc chk g (chosen (suc i) gs b),
  zero-bit_xor (chosen (suc i) gs b),
)

bit_of-bit_xor : (i a b : ℕ) → bit_xor a b / 2 ^ i % 2 ≡ (a / 2 ^ i % 2 + b / 2 ^ i % 2) % 2
bit_of-bit_xor i a b = rw (bit_xor-div_pow i a b) (bit_xor-mod_two (a / 2 ^ i) (b / 2 ^ i))

chosen-bit_xor :
    (i : ℕ) (gs : List ℕ) (a b : ℕ)
    → chosen i gs (bit_xor a b) ≡ bit_xor (chosen i gs a) (chosen i gs b)
unfolding chosen
chosen-bit_xor i [] a b = sym (bit_xor-zero 0)
chosen-bit_xor i (g ∷ gs) a b =
    let x : ℕ = a / 2 ^ i % 2 in
    let y : ℕ = b / 2 ^ i % 2 in
    ap₂ bit_xor
      (ap (λ (t : ℕ). pick t g) (bit_of-bit_xor i a b)
        ∙ pick-bit_xor x y g (omega arith) (omega arith))
      (chosen-bit_xor (suc i) gs a b)
    ∙ bit_xor_swap (pick x g) (pick y g) (chosen (suc i) gs a) (chosen (suc i) gs b)

-- One round, with the masks and shifts as arithmetic.
pub poly_step_lem :
    (c v : ℕ) → poly_step c v ≡ bit_xor (bit_xor (c % 2 ^ 25 * 2 ^ 5) v) (chosen 0 gen (c / 2 ^ 25))
unfolding poly_step
poly_step_lem c v = rw (bit_and_mask 25 c) (mix-chosen 0 gen (c / 2 ^ 25) _)

-- One round is linear in the checksum and the value together.
pub poly_step-bit_xor :
    (a b v w : ℕ) → poly_step (bit_xor a b) (bit_xor v w) ≡ bit_xor (poly_step a v) (poly_step b w)
poly_step-bit_xor a b v w =
    let m = λ (x : ℕ). x % 2 ^ 25 * 2 ^ 5 in
    let g = λ (x : ℕ). chosen 0 gen (x / 2 ^ 25) in
    rw (poly_step_lem (bit_xor a b) (bit_xor v w), poly_step_lem a v, poly_step_lem b w)
      (rw (
        bit_xor-mod_pow 25 a b,
        ← bit_xor-mul_pow 5 (a % 2 ^ 25) (b % 2 ^ 25),
        bit_xor-div_pow 25 a b,
        chosen-bit_xor 0 gen (a / 2 ^ 25) (b / 2 ^ 25),
        bit_xor_swap (m a) (m b) v w,
        bit_xor_swap (bit_xor (m a) v) (bit_xor (m b) w) (g a) (g b),
      ))

-- While nothing is shifted out, a round appends a digit.
pub poly_step_small : (x d : ℕ) → x < 2 ^ 25 → d < 32 → poly_step x d ≡ x * 32 + d
unfolding chosen
poly_step_small x d h k = ground (
  arith,
  poly_step_lem x d,
  bit_xor_disjoint 5 x d,
  ap (chosen 0 gen) (let e : x / 2 ^ 25 ≡ 0 = omega arith in e),
  bit_xor-zero (x * 32 + d),
)

chosen_bound : all_below 32 (λ b. ltb (chosen 0 gen b) (2 ^ 30)) ≡ true
unfolding chosen all_below
chosen_bound = refl

chosen-lt : (b : ℕ) → b < 32 → chosen 0 gen b < 2 ^ 30
chosen-lt b h = ground (arith, all_below_sound 32 _ chosen_bound b h)

-- A checksum stays below 2 ^ 30.
pub poly_step-lt : (c v : ℕ) → c < 2 ^ 30 → v < 32 → poly_step c v < 2 ^ 30
poly_step-lt c v h k = rw (poly_step_lem c v) (
    bit_xor-lt_pow 30 _ _ (bit_xor-lt_pow 30 _ v (omega arith) (omega arith))
      (chosen-lt (c / 2 ^ 25) (omega arith)))

chosen_units : all_below 32 (λ b. ltb 0 (chosen 0 gen b % 32) || b == 0) ≡ true
unfolding chosen all_below
chosen_units = refl

-- A round loses nothing: only the checksum 0 goes to 0.
pub poly_step-eq-zero : (c : ℕ) → c < 2 ^ 30 → poly_step c 0 ≡ 0 → c ≡ 0
poly_step-eq-zero c h e =
    let b : ℕ = c / 2 ^ 25 in
    let m : ℕ = c % 2 ^ 25 in
    let low : bit_xor (bit_xor (m * 2 ^ 5) 0) (chosen 0 gen b) ≡ 0 = sym (poly_step_lem c 0) ∙ e in
    let unit : chosen 0 gen b % 32 ≡ 0 = ground (
      arith,
      ap (λ (t : ℕ). t % 2 ^ 5) low,
      bit_xor-mod_pow 5 (bit_xor (m * 2 ^ 5) 0) (chosen 0 gen b),
      bit_xor-zero (m * 2 ^ 5),
      ap (λ (t : ℕ). bit_xor t (chosen 0 gen b % 2 ^ 5))
          (let q : m * 2 ^ 5 % 2 ^ 5 ≡ 0 = omega arith in q),
      zero-bit_xor (chosen 0 gen b % 2 ^ 5),
    ) in
    let top : b ≡ 0 = ground (arith, all_below_sound 32 _ chosen_units b (omega arith)) in
    omega (arith, top, e, poly_step_small c 0 (omega (arith, top)) (omega arith))

abbrev pub IsSymbol : ℕ → Type 0
IsSymbol d = d < 32

pub foldl-lt : (ds : List ℕ) (c : ℕ) → c < 2 ^ 30 → All IsSymbol ds → foldl poly_step c ds < 2 ^ 30
foldl-lt [] c h a = h
foldl-lt (d ∷ ds) c h a = foldl-lt ds (poly_step c d) (poly_step-lt c d h a.0) a.1

-- A digit that arrives on top of the small difference `x`.
append_digit :
    (a x d : ℕ)
    → x < 2 ^ 25
    → d < 32
    → poly_step (bit_xor a x) d ≡ bit_xor (poly_step a 0) (x * 32 + d)
append_digit a x d h k =
    ap (poly_step (bit_xor a x)) (sym (zero-bit_xor d))
    ∙ poly_step-bit_xor a x 0 d
    ∙ ap (bit_xor (poly_step a 0)) (poly_step_small x d h k)

-- Six digits with no checksum give the checksum that they spell, shifted over that of six zeros.
pub foldl-six :
    (a d0 d1 d2 d3 d4 d5 : ℕ)
    → All IsSymbol (d0 ∷ d1 ∷ d2 ∷ d3 ∷ d4 ∷ d5 ∷ [])
    → foldl poly_step a (d0 ∷ d1 ∷ d2 ∷ d3 ∷ d4 ∷ d5 ∷ [])
      ≡ bit_xor
          (foldl poly_step a zeros)
          (((((d0 * 32 + d1) * 32 + d2) * 32 + d3) * 32 + d4) * 32 + d5)
foldl-six a d0 d1 d2 d3 d4 d5 (h0, (h1, (h2, (h3, (h4, (h5, _)))))) =
    let x0 : ℕ = 0 * 32 + d0 in
    let x1 : ℕ = x0 * 32 + d1 in
    let x2 : ℕ = x1 * 32 + d2 in
    let x3 : ℕ = x2 * 32 + d3 in
    let x4 : ℕ = x3 * 32 + d4 in
    let a0 : ℕ = poly_step a 0 in
    let a1 : ℕ = poly_step a0 0 in
    let a2 : ℕ = poly_step a1 0 in
    let a3 : ℕ = poly_step a2 0 in
    let a4 : ℕ = poly_step a3 0 in
    rw
      (
        ap (λ (t : ℕ). poly_step t d0) (sym (bit_xor-zero a)),
        append_digit a 0 d0 (omega arith) h0,
        append_digit a0 x0 d1 (omega arith) h1,
        append_digit a1 x1 d2 (omega arith) h2,
        append_digit a2 x2 d3 (omega arith) h3,
        append_digit a3 x3 d4 (omega arith) h4,
        append_digit a4 x4 d5 (omega arith) h5,
      )
      (ap (bit_xor (poly_step a4 0)) (omega arith))
