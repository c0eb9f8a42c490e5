-- ===== src/Base/Bits.antt =====
-- Laws of `bit_xor`, `bit_and` and `bit_or` at variables, from the digit recursion.
use Prim.Native.Nat.{
  ℕ, zero, suc, ◌+◌, ◌-◌, ◌*◌, ◌/◌, ◌%◌, ◌^◌, ◌≤◌, ◌<◌, min, max, bit_and, bit_or, bit_xor, digits,
  bitwise, differ, bit_and-bitwise, bit_or-bitwise, bit_xor-bitwise,
}
use mathlib.Core.Path.{◌≡◌, refl, sym, ap, ap₂, ◌∙◌}
use mathlib.Core.Bool.{Bool, true, ◌&&◌}
use mathlib.Core.WellFounded.{Acc, WellFounded}
use native.Mathlib.Nat.{
  pow-suc, one-le-pow, div-add-mod, mod-lt, mod-eq_of_lt, mul-add-mod_self_right, div-add-mod',
  mul-add-div_right, div-eq_of_lt, add-zero,
}
use native.Mathlib.Decide.{dec_lt}
use native.Mathlib.Omega.{arith}

Acc-below : (k n : ℕ) → n < k → Acc ◌<◌ n
Acc-below zero n h = elim h [ ]
Acc-below (suc k) n h = Acc.intro n (λ m hm. Acc-below k m (omega arith))

-- `<` on the native numbers is well founded.
unfoldable pub lt_wf : WellFounded ◌<◌
unfolding Acc-below
lt_wf = record { apply = λ n. Acc-below (suc n) n (omega arith) }

-- Checks every value below a bound by evaluation.
unfoldable pub all_below : ℕ → (ℕ → Bool) → Bool
all_below zero p = true
all_below (suc n) p = p n && all_below n p

pub all_below_sound : (n : ℕ) (p : ℕ → Bool) → all_below n p ≡ true → (x : ℕ) → x < n → p x ≡ true
unfolding all_below
all_below_sound zero p h x lt = absurd (omega arith)
all_below_sound (suc n) p h x lt = ground (arith, all_below_sound n p (ground arith) x)

-- `bitwise` goes through the digits of its first operand with as much fuel as that is large; what is
-- left over makes no difference.
module _ (rest : ℕ → ℕ) (op : ℕ → ℕ → ℕ) where
  one_more : (fuel x y : ℕ) → x ≤ fuel → digits rest op (suc fuel) x y ≡ digits rest op fuel x y
  one_more zero zero y h = refl
  one_more (suc fuel) zero y h = refl
  one_more zero (suc x) y h = absurd (omega arith)
  one_more (suc fuel) (suc x) y h =
      let low : ℕ = op (suc x % 2) (y % 2) in
      ap (λ (t : ℕ). t * 2 + low) (one_more fuel (suc x / 2) (y / 2) (omega arith))

  left_over :
      (large small x y : ℕ)
      → small ≤ large
      → x ≤ small
      → digits rest op large x y ≡ digits rest op small x y
  left_over zero small x y h k =
      let same : 0 ≡ small = omega arith in ap (λ (t : ℕ). digits rest op t x y) same
  left_over (suc large) small x y h k = elim (dec_lt large small) [
    | yes top ↦
        let same : suc large ≡ small = omega arith in ap (λ (t : ℕ). digits rest op t x y) same
    | no below ↦ one_more large x y (omega arith) ∙ left_over large small x y (omega arith) k
  ]

  lowest :
      (x y : ℕ)
      → bitwise rest op (suc x) y ≡ bitwise rest op (suc x / 2) (y / 2) * 2 + op (suc x % 2) (y % 2)
  lowest x y =
      let low : ℕ = op (suc x % 2) (y % 2) in
      let half : ℕ = suc x / 2 in
      ap (λ (t : ℕ). t * 2 + low) (left_over x half half (y / 2) (omega arith) (omega arith))

pub differ_lem : (a b : ℕ) → a < 2 → b < 2 → differ a b ≡ (a + b) % 2
differ_lem zero zero h k = refl
differ_lem zero (suc zero) h k = refl
differ_lem (suc zero) zero h k = refl
differ_lem (suc zero) (suc zero) h k = refl
differ_lem zero (suc (suc b)) h k = absurd (omega arith)
differ_lem (suc zero) (suc (suc b)) h k = absurd (omega arith)
differ_lem (suc (suc a)) b h k = absurd (omega arith)

pub bit_xor_step : (a b : ℕ) → bit_xor a b ≡ bit_xor (a / 2) (b / 2) * 2 + (a % 2 + b % 2) % 2
bit_xor_step zero b = simp bit_xor-bitwise (omega arith)
bit_xor_step (suc a) b = omega (
  arith,
  bit_xor-bitwise (suc a) b,
  bit_xor-bitwise (suc a / 2) (b / 2),
  lowest (λ y. y) differ a b,
  differ_lem (suc a % 2) (b % 2) (omega arith) (omega arith),
)

-- The same of `|`.
pub bit_or_step : (x y : ℕ) → bit_or x y ≡ bit_or (x / 2) (y / 2) * 2 + max (x % 2) (y % 2)
bit_or_step zero y = omega (arith, bit_or-bitwise 0 y, bit_or-bitwise 0 (y / 2))
bit_or_step (suc x) y =
    omega
      (arith, lowest (λ t. t) max x y, bit_or-bitwise (suc x) y, bit_or-bitwise (suc x / 2) (y / 2))

pub bit_xor-div_two : (a b : ℕ) → bit_xor a b / 2 ≡ bit_xor (a / 2) (b / 2)
bit_xor-div_two a b = omega (arith, bit_xor_step a b)

pub bit_xor-mod_two : (a b : ℕ) → bit_xor a b % 2 ≡ (a % 2 + b % 2) % 2
bit_xor-mod_two a b = omega (arith, bit_xor_step a b)

pub zero-bit_xor : (b : ℕ) → bit_xor 0 b ≡ b
zero-bit_xor b = bit_xor-bitwise 0 b

bit_xor-zero_fuel : (n a : ℕ) → a ≤ n → bit_xor a 0 ≡ a
bit_xor-zero_fuel n zero h = refl
bit_xor-zero_fuel zero (suc a) h = absurd (omega arith)
bit_xor-zero_fuel (suc n) (suc a) h =
    omega (arith, bit_xor_step (suc a) 0, bit_xor-zero_fuel n (suc a / 2) (omega arith))

pub bit_xor-zero : (a : ℕ) → bit_xor a 0 ≡ a
bit_xor-zero a = bit_xor-zero_fuel a a (omega arith)

bit_xor_self_fuel : (n a : ℕ) → a ≤ n → bit_xor a a ≡ 0
bit_xor_self_fuel n zero h = refl
bit_xor_self_fuel zero (suc a) h = absurd (omega arith)
bit_xor_self_fuel (suc n) (suc a) h =
    omega (arith, bit_xor_step (suc a) (suc a), bit_xor_self_fuel n (suc a / 2) (omega arith))

pub bit_xor_self : (a : ℕ) → bit_xor a a ≡ 0
bit_xor_self a = bit_xor_self_fuel a a (omega arith)

bit_xor_comm_fuel : (n a b : ℕ) → a ≤ n → bit_xor a b ≡ bit_xor b a
bit_xor_comm_fuel n zero b h = omega (arith, zero-bit_xor b, bit_xor-zero b)
bit_xor_comm_fuel zero (suc a) b h = absurd (omega arith)
bit_xor_comm_fuel (suc n) (suc a) b h = omega (
  arith,
  bit_xor_step (suc a) b,
  bit_xor_step b (suc a),
  bit_xor_comm_fuel n (suc a / 2) (b / 2) (omega arith),
)

pub bit_xor_comm : (a b : ℕ) → bit_xor a b ≡ bit_xor b a
bit_xor_comm a b = bit_xor_comm_fuel a a b (omega arith)

bit_xor_assoc_fuel : (n a b c : ℕ) → a ≤ n → bit_xor (bit_xor a b) c ≡ bit_xor a (bit_xor b c)
bit_xor_assoc_fuel n zero b c h = rw (zero-bit_xor b, zero-bit_xor (bit_xor b c))
bit_xor_assoc_fuel zero (suc a) b c h = absurd (omega arith)
bit_xor_assoc_fuel (suc n) (suc a) b c h = omega (
  arith,
  bit_xor_step (bit_xor (suc a) b) c,
  bit_xor_step (suc a) (bit_xor b c),
  ap (λ (t : ℕ). bit_xor t (c / 2)) (bit_xor-div_two (suc a) b),
  ap (λ (t : ℕ). bit_xor (suc a / 2) t) (bit_xor-div_two b c),
  bit_xor-mod_two (suc a) b,
  bit_xor-mod_two b c,
  bit_xor_assoc_fuel n (suc a / 2) (b / 2) (c / 2) (omega arith),
)

pub bit_xor_assoc : (a b c : ℕ) → bit_xor (bit_xor a b) c ≡ bit_xor a (bit_xor b c)
bit_xor_assoc a b c = bit_xor_assoc_fuel a a b c (omega arith)

-- The two middle operands change places.
pub bit_xor_swap :
    (a b c d : ℕ) → bit_xor (bit_xor a b) (bit_xor c d) ≡ bit_xor (bit_xor a c) (bit_xor b d)
bit_xor_swap a b c d =
    rw (bit_xor_assoc a b (bit_xor c d), ← bit_xor_assoc b c d, bit_xor_comm b c)
      (rw (bit_xor_assoc c b d, bit_xor_assoc a c (bit_xor b d)))

pub bit_xor_cancel : (a b : ℕ) → bit_xor a (bit_xor a b) ≡ b
bit_xor_cancel a b = rw (← bit_xor_assoc a a b, bit_xor_self a) (zero-bit_xor b)

mul-two-pow-suc : (by w : ℕ) → by * 2 ^ suc w ≡ 2 * (by * 2 ^ w)
mul-two-pow-suc by w =
    let grown : by * 2 ^ suc w ≡ by * (2 ^ w * 2) = ap (λ (t : ℕ). by * t) (pow-suc 2 w) in
    omega (grown, arith)

pub bit_xor-lt_pow : (k a b : ℕ) → a < 2 ^ k → b < 2 ^ k → bit_xor a b < 2 ^ k
bit_xor-lt_pow zero zero b h h' = omega (arith, zero-bit_xor b)
bit_xor-lt_pow zero (suc a) b h h' = absurd (omega arith)
bit_xor-lt_pow (suc k) a b h h' = omega (
  arith,
  bit_xor_step a b,
  pow-suc 2 k,
  bit_xor-lt_pow k (a / 2) (b / 2) (omega (arith, pow-suc 2 k)) (omega (arith, pow-suc 2 k)),
)

-- Exclusive or acts on the high and the low part of a number by itself.
pub bit_xor_fields :
    (k p q r s : ℕ)
    → r < 2 ^ k
    → s < 2 ^ k
    → bit_xor (p * 2 ^ k + r) (q * 2 ^ k + s) ≡ bit_xor p q * 2 ^ k + bit_xor r s
bit_xor_fields zero p q zero zero h h' = ground (arith, bit_xor-zero 0)
bit_xor_fields zero p q (suc r) s h h' = absurd (omega arith)
bit_xor_fields zero p q zero (suc s) h h' = absurd (omega arith)
bit_xor_fields (suc k) p q r s h h' = ground (
  arith,
  bit_xor_step (p * 2 ^ suc k + r) (q * 2 ^ suc k + s),
  bit_xor_step r s,
  mul-two-pow-suc p k,
  mul-two-pow-suc q k,
  mul-two-pow-suc (bit_xor p q) k,
  pow-suc 2 k,
  bit_xor_fields k p q (r / 2) (s / 2),
)

-- The same of `&`.
pub bit_and_step : (x y : ℕ) → bit_and x y ≡ bit_and (x / 2) (y / 2) * 2 + min (x % 2) (y % 2)
bit_and_step zero y = omega (arith, bit_and-bitwise 0 y, bit_and-bitwise 0 (y / 2))
bit_and_step (suc x) y =
    omega (
      arith,
      lowest (λ t. 0) min x y,
      bit_and-bitwise (suc x) y,
      bit_and-bitwise (suc x / 2) (y / 2),
    )

bit_and-nothing : (x bound : ℕ) → x ≤ bound → bit_and x 0 ≡ 0
bit_and-nothing zero bound within = refl
bit_and-nothing (suc x) zero within = absurd (omega arith)
bit_and-nothing (suc x) (suc bound) within =
    let halves : bit_and (suc x / 2) 0 ≡ 0 = bit_and-nothing (suc x / 2) bound (omega arith) in
    omega (halves, bit_and_step (suc x) 0, arith)

pub bit_and-zero : (x : ℕ) → bit_and x 0 ≡ 0
bit_and-zero x = bit_and-nothing x x (omega arith)

mod-two-pow-suc : (k a : ℕ) → a % 2 ^ suc k ≡ a / 2 % 2 ^ k * 2 + a % 2
mod-two-pow-suc k a =
    let q : ℕ = a / 2 / 2 ^ k in
    let r : ℕ = a / 2 % 2 ^ k * 2 + a % 2 in
    let low : a / 2 % 2 ^ k < 2 ^ k = mod-lt (a / 2) (one-le-pow k 2 (omega arith)) in
    let split : a ≡ q * 2 ^ suc k + r =
      omega (arith, div-add-mod (a / 2) (2 ^ k), mul-two-pow-suc q k) in
    let fits : r < 2 ^ suc k = omega (arith, low, pow-suc 2 k) in
    ap (λ (t : ℕ). t % 2 ^ suc k) split ∙ mul-add-mod_self_right q (2 ^ suc k) r ∙ mod-eq_of_lt fits

-- A mask of `k` ones is the remainder by `2 ^ k`.
pub bit_and_mask : (k a : ℕ) → bit_and a (2 ^ k - 1) ≡ a % 2 ^ k
bit_and_mask zero a = rw bit_and-zero (omega arith)
bit_and_mask (suc k) a = ground (
  arith,
  bit_and_step a (2 ^ suc k - 1),
  pow-suc 2 k,
  one-le-pow k 2,
  mod-two-pow-suc k a,
  bit_and_mask k (a / 2),
)

bit_xor_split :
    (k a b : ℕ)
    → bit_xor a b ≡ bit_xor (a / 2 ^ k) (b / 2 ^ k) * 2 ^ k + bit_xor (a % 2 ^ k) (b % 2 ^ k)
bit_xor_split k a b =
    let low = λ (x : ℕ). mod-lt x {m = 2 ^ k} (one-le-pow k 2 (omega arith)) in
    ap₂ bit_xor (sym (div-add-mod' a (2 ^ k))) (sym (div-add-mod' b (2 ^ k)))
    ∙ bit_xor_fields k (a / 2 ^ k) (b / 2 ^ k) (a % 2 ^ k) (b % 2 ^ k) (low a) (low b)

bit_xor_low-lt : (k a b : ℕ) → bit_xor (a % 2 ^ k) (b % 2 ^ k) < 2 ^ k
bit_xor_low-lt k a b =
    let low = λ (x : ℕ). mod-lt x {m = 2 ^ k} (one-le-pow k 2 (omega arith)) in
    bit_xor-lt_pow k (a % 2 ^ k) (b % 2 ^ k) (low a) (low b)

pub bit_xor-div_pow : (k a b : ℕ) → bit_xor a b / 2 ^ k ≡ bit_xor (a / 2 ^ k) (b / 2 ^ k)
bit_xor-div_pow k a b =
    let hi : ℕ = bit_xor (a / 2 ^ k) (b / 2 ^ k) in
    let lo : ℕ = bit_xor (a % 2 ^ k) (b % 2 ^ k) in
    ap (λ (t : ℕ). t / 2 ^ k) (bit_xor_split k a b)
    ∙ mul-add-div_right {m = 2 ^ k} (one-le-pow k 2 (omega arith)) hi lo
    ∙ omega (arith, div-eq_of_lt (bit_xor_low-lt k a b))

pub bit_xor-mod_pow : (k a b : ℕ) → bit_xor a b % 2 ^ k ≡ bit_xor (a % 2 ^ k) (b % 2 ^ k)
bit_xor-mod_pow k a b =
    let hi : ℕ = bit_xor (a / 2 ^ k) (b / 2 ^ k) in
    let lo : ℕ = bit_xor (a % 2 ^ k) (b % 2 ^ k) in
    ap (λ (t : ℕ). t % 2 ^ k) (bit_xor_split k a b)
    ∙ mul-add-mod_self_right hi (2 ^ k) lo
    ∙ mod-eq_of_lt (bit_xor_low-lt k a b)

pub bit_xor-mul_pow : (k a b : ℕ) → bit_xor (a * 2 ^ k) (b * 2 ^ k) ≡ bit_xor a b * 2 ^ k
bit_xor-mul_pow k a b =
    let low : 0 < 2 ^ k = one-le-pow k 2 (omega arith) in
    ap₂ bit_xor (sym (add-zero (a * 2 ^ k))) (sym (add-zero (b * 2 ^ k)))
    ∙ bit_xor_fields k a b 0 0 low low
    ∙ omega (arith, bit_xor-zero 0)

-- Exclusive or of disjoint fields is a sum.
pub bit_xor_disjoint : (k a r : ℕ) → r < 2 ^ k → bit_xor (a * 2 ^ k) r ≡ a * 2 ^ k + r
bit_xor_disjoint k a r h =
    let low : 0 < 2 ^ k = one-le-pow k 2 (omega arith) in
    ap₂ bit_xor (sym (add-zero (a * 2 ^ k))) (omega arith)
    ∙ bit_xor_fields k a 0 0 r low h
    ∙ omega (arith, ap (λ (t : ℕ). t * 2 ^ k) (bit_xor-zero a), zero-bit_xor r)

bit_or-zero_fuel : (n a : ℕ) → a ≤ n → bit_or a 0 ≡ a
bit_or-zero_fuel n zero h = refl
bit_or-zero_fuel zero (suc a) h = absurd (omega arith)
bit_or-zero_fuel (suc n) (suc a) h =
    omega (arith, bit_or_step (suc a) 0, bit_or-zero_fuel n (suc a / 2) (omega arith))

-- `|` of disjoint fields is a sum.
pub bit_or_disjoint :
    (w high low : ℕ) → low < 2 ^ w → bit_or (high * 2 ^ w) low ≡ high * 2 ^ w + low
bit_or_disjoint zero high zero fits = ground (bit_or-zero_fuel high high, arith)
bit_or_disjoint zero high (suc low) fits = absurd (omega arith)
bit_or_disjoint (suc w) high low fits = ground (
  bit_or_disjoint w high (low / 2),
  pow-suc 2 w,
  mul-two-pow-suc high w,
  bit_or_step (high * 2 ^ suc w) low,
  arith,
)

-- The same with the low field in front.
pub bit_or_low : (k q r : ℕ) → r < 2 ^ k → bit_or r (q * 2 ^ k) ≡ q * 2 ^ k + r
bit_or_low zero q zero h = omega (arith, bit_or-bitwise 0 (q * 1))
bit_or_low zero q (suc r) h = absurd (omega arith)
bit_or_low (suc k) q r h =
    ground (
      arith,
      bit_or_step r (q * 2 ^ suc k),
      mul-two-pow-suc q k,
      pow-suc 2 k,
      bit_or_low k q (r / 2),
    )
