-- ===== src/Exec/Toml/Trim.antt =====
-- What the helpers of `setKeyInTable` of internal/exec/exec.go trim, and the blanks in front of a
-- line.
use sentnodes_agent.Base.{
  ℕ, suc, ◌-◌, ◌≤◌, true, false, ◌&&◌, ◌||◌, [], ◌∷◌, ◌++◌, leb, ◌==◌, take, length, length-append,
  take-append, All, ◌≡◌, refl, sym, ap, ◌∙◌, arith, Bool-cases, inl, inr,
}
use mathlib.Core.List.{reverse, reverse-reverse, reverse-append}
use mathlib.Core.Path.{subst}
use sentnodes_agent.Base.Text.{
  Text, trim_by, space_width, space_width_back, trim_space, trim_blanks,
}
use sentnodes_agent.Base.Text.Laws.{IsGraphic, space_width-IsGraphic, space_width_back-IsGraphic}
use sentnodes_agent.Exec.Toml.{indent}

-- A space or a tab.
abbrev pub IsBlank : ℕ → Type 0
IsBlank c = (c == b' ' || c == b'\t') ≡ true

-- A small letter, a digit or an underscore, as in the keys of the edits.
abbrev pub IsBare : ℕ → Type 0
IsBare c = ((leb b'a' c && leb c b'z') || (leb b'0' c && leb c b'9') || c == b'_') ≡ true

space_width-blank : (c : ℕ) (s : Text) → IsBlank c → space_width (c ∷ s) ≡ 1
unfolding space_width
space_width-blank c s h = ground arith

trim_by-blanks :
    (ws : Text) (a : ℕ) (s : Text)
    → All IsBlank ws
    → IsGraphic a
    → trim_by space_width 0 (ws ++ a ∷ s) ≡ a ∷ s
unfolding trim_by
trim_by-blanks [] a s h g = rw (space_width-IsGraphic a s g) refl
trim_by-blanks (c ∷ ws) a s h g =
    rw (space_width-blank c (ws ++ a ∷ s) h.0) (trim_by-blanks ws a s h.1 g)

pub trim_blanks-blanks :
    (ws : Text) (a : ℕ) (s : Text) → All IsBlank ws → IsBare a → trim_blanks (ws ++ a ∷ s) ≡ a ∷ s
unfolding trim_blanks
trim_blanks-blanks [] a s h g = ground arith
trim_blanks-blanks (c ∷ ws) a s h g = rw h.0 (trim_blanks-blanks ws a s h.1 g)

length-trim_blanks : (s : Text) → length (trim_blanks s) ≤ length s
unfolding trim_blanks
length-trim_blanks [] = omega arith
length-trim_blanks (c ∷ s) = ground (arith, length-trim_blanks s)

trim_blanks-cons : (c : ℕ) (s : Text) → IsBlank c → trim_blanks (c ∷ s) ≡ trim_blanks s
unfolding trim_blanks
trim_blanks-cons c s h = rw h refl

trim_blanks-stop :
    (c : ℕ) (s : Text) → (c == b' ' || c == b'\t') ≡ false → trim_blanks (c ∷ s) ≡ c ∷ s
unfolding trim_blanks
trim_blanks-stop c s h = rw h refl

indent-cons : (c : ℕ) (s : Text) → IsBlank c → indent (c ∷ s) ≡ c ∷ indent s
indent-cons c s h =
    let n : ℕ = length (trim_blanks s) in
    let more : suc (length s) - n ≡ suc (length s - n) = omega (arith, length-trim_blanks s) in
    ap (λ (t : Text). take (suc (length s) - length t) (c ∷ s)) (trim_blanks-cons c s h)
    ∙ ap (λ (n : ℕ). take n (c ∷ s)) more

indent-none : (c : ℕ) (s : Text) → (c == b' ' || c == b'\t') ≡ false → indent (c ∷ s) ≡ []
indent-none c s h =
    let none_left : suc (length s) - suc (length s) ≡ 0 = omega arith in
    ap (λ (t : Text). take (suc (length s) - length t) (c ∷ s)) (trim_blanks-stop c s h)
    ∙ ap (λ (n : ℕ). take n (c ∷ s)) none_left

-- What stands in front of a line is blank.
pub indent-IsBlank : (line : Text) → All IsBlank (indent line)
unfolding trim_blanks
indent-IsBlank [] = tt
indent-IsBlank (c ∷ s) = elim (Bool-cases (c == b' ' || c == b'\t')) [
  | inl b ↦ subst (λ ws. All IsBlank ws) (sym (indent-cons c s b)) (b, indent-IsBlank s)
  | inr n ↦ subst (λ ws. All IsBlank ws) (sym (indent-none c s n)) tt
]

pub indent-blanks :
    (ws : Text) (a : ℕ) (s : Text) → All IsBlank ws → IsBare a → indent (ws ++ a ∷ s) ≡ ws
indent-blanks ws a s h g =
    let whole : length (ws ++ a ∷ s) - length (a ∷ s) ≡ length ws =
      omega (arith, length-append ws (a ∷ s)) in
    ap (λ (t : Text). take (length (ws ++ a ∷ s) - length t) (ws ++ a ∷ s))
      (trim_blanks-blanks ws a s h g)
    ∙ ap (λ (n : ℕ). take n (ws ++ a ∷ s)) whole
    ∙ take-append ws (a ∷ s)

trim_by-last : (z : ℕ) (r : Text) → IsGraphic z → trim_by space_width_back 0 (z ∷ r) ≡ z ∷ r
unfolding trim_by
trim_by-last z r g = rw (space_width_back-IsGraphic z r g) refl

trim_back-last :
    (y : Text) (z : ℕ)
    → IsGraphic z
    → reverse (trim_by space_width_back 0 (reverse (y ++ z ∷ []))) ≡ y ++ z ∷ []
trim_back-last y z g =
    let turned : reverse (y ++ z ∷ []) ≡ z ∷ reverse y = reverse-append y (z ∷ []) in
    ap (λ t. reverse (trim_by space_width_back 0 t)) turned
    ∙ ap reverse (trim_by-last z (reverse y) g ∙ sym turned)
    ∙ reverse-reverse (y ++ z ∷ [])

-- Blanks in front are trimmed, and nothing else of a text that is visible at both ends.
pub trim_space-framed :
    (ws : Text) (a : ℕ) (s y : Text) (z : ℕ)
    → All IsBlank ws
    → IsGraphic a
    → IsGraphic z
    → a ∷ s ≡ y ++ z ∷ []
    → trim_space (ws ++ a ∷ s) ≡ a ∷ s
unfolding trim_space
trim_space-framed ws a s y z h g g' e =
    ap (λ t. reverse (trim_by space_width_back 0 (reverse t))) (trim_by-blanks ws a s h g ∙ e)
    ∙ trim_back-last y z g'
    ∙ sym e
