-- ===== src/Base/Text/Laws.antt =====
-- Laws of the text operations that the components share.
use sentnodes_agent.Base.Text.{
  Text, equal, has_prefix, last_index, to_lower, space_width, space_width3, space_width_back,
  trim_by, trim_space, fields_from, fields, flush,
}
use Prim.Native.Nat.{ℕ, ◌≤◌, ◌<◌}
use mathlib.Core.Path.{◌≡◌, refl, sym, ap, ◌∙◌}
use mathlib.Core.Logic.{◌↔◌, ◌≢◌, ◌⊎◌}
use mathlib.Core.Bool.{true, false}
use mathlib.Core.List.{List, [], ◌∷◌, ◌++◌, reverse, reverse-reverse, append_assoc, append-nil}
use native.Mathlib.Omega.{arith}
use sentnodes_agent.Base.Seq.{All, All-append, get_or, length}
use mathlib.Core.Option.{none, some}
use mathlib.Core.List.{reverse-cons}
use sentnodes_agent.Base.Test.{◌==◌}

pub equal_iff : (a b : Text) → (equal a b ≡ true) ↔ (a ≡ b)
unfolding equal
equal_iff (x ∷ a) (y ∷ b) = ground (arith, equal_iff a b)
equal_iff _ _ = ground arith

pub equal_refl : (a : Text) → equal a a ≡ true
equal_refl a = (equal_iff a a).1 refl

pub has_prefix-append : (p s : Text) → has_prefix (p ++ s) p ≡ true
unfolding has_prefix
has_prefix-append [] [] = refl
has_prefix-append [] (c ∷ s) = refl
has_prefix-append (c ∷ p) s = ground (arith, has_prefix-append p s)

-- A visible ASCII character.
abbrev pub IsGraphic : ℕ → Type 0
IsGraphic c = (33 ≤ c) × (c ≤ 126)

pub space_width-IsGraphic : (c : ℕ) (s : Text) → IsGraphic c → space_width (c ∷ s) ≡ 0
unfolding space_width
space_width-IsGraphic c s h = ground arith

trim_by-IsGraphic : (s : Text) → All IsGraphic s → trim_by space_width 0 s ≡ s
unfolding trim_by
trim_by-IsGraphic [] h = refl
trim_by-IsGraphic (c ∷ s) h = rw (space_width-IsGraphic c s h.0)

width_one : (c : ℕ) → IsGraphic c → (space_width3 c 0 0 == 1) ≡ false
unfolding space_width3
width_one c h = ground arith

width_two : (c d : ℕ) → IsGraphic d → (space_width3 c d 0 == 2) ≡ false
unfolding space_width3
width_two c d h = ground arith

width_three : (c d e : ℕ) → IsGraphic e → (space_width3 c d e == 3) ≡ false
unfolding space_width3
width_three c d e h = ground arith

pub space_width_back-IsGraphic : (c : ℕ) (s : Text) → IsGraphic c → space_width_back (c ∷ s) ≡ 0
unfolding space_width_back
space_width_back-IsGraphic c s h =
    rw (width_one c h, width_two (get_or s 0 0) c h, width_three (get_or s 1 0) (get_or s 0 0) c h)

All-reverse {ℓ κ} : {A : Type ℓ} (P : A → Type κ) (xs : List A) → All P xs → All P (reverse xs)
All-reverse P [] h = tt
All-reverse P (x ∷ xs) h =
    rw (reverse-cons x xs) (All-append P (reverse xs) (x ∷ []) (All-reverse P xs h.1) (h.0, tt))

trim_by_back-IsGraphic : (s : Text) → All IsGraphic s → trim_by space_width_back 0 s ≡ s
unfolding trim_by
trim_by_back-IsGraphic [] h = refl
trim_by_back-IsGraphic (c ∷ s) h = rw (space_width_back-IsGraphic c s h.0)

-- Visible text has nothing to trim.
pub trim_space-IsGraphic : (s : Text) → All IsGraphic s → trim_space s ≡ s
unfolding trim_space
trim_space-IsGraphic s h =
    rw (trim_by-IsGraphic s h, trim_by_back-IsGraphic (reverse s) (All-reverse IsGraphic s h))
      (reverse-reverse s)

-- Visible and no capital letter.
abbrev pub IsPlain : ℕ → Type 0
IsPlain c = IsGraphic c × ((c < b'A') ⊎ (b'Z' < c))

pub to_lower-IsPlain : (s : Text) → All IsPlain s → to_lower s ≡ s
unfolding to_lower
to_lower-IsPlain [] h = refl
to_lower-IsPlain (c ∷ s) (h, hs) = ground (arith, to_lower-IsPlain s hs)

pub IsPlain-IsGraphic : (s : Text) → All IsPlain s → All IsGraphic s
IsPlain-IsGraphic [] h = tt
IsPlain-IsGraphic (c ∷ s) h = (h.0.0, IsPlain-IsGraphic s h.1)

pub last_index-none : (s : Text) (b : ℕ) → All (λ c. c ≢ b) s → last_index s b ≡ none
unfolding last_index
last_index-none [] b h = refl
last_index-none (c ∷ s) b h = rw (last_index-none s b h.1) (ground arith)

pub last_index-append :
    (s t : Text) (b : ℕ) → All (λ c. c ≢ b) t → last_index (s ++ b ∷ t) b ≡ some (length s)
unfolding last_index
last_index-append [] t b h = rw (last_index-none t b h) (ground arith)
last_index-append (c ∷ s) t b h = rw (last_index-append s t b h)

fields_from-IsGraphic :
    (word s rest : Text)
    → All IsGraphic s
    → fields_from 0 word (s ++ rest) ≡ fields_from 0 (word ++ s) rest
unfolding fields_from
fields_from-IsGraphic word [] rest h = ap (λ w. fields_from 0 w rest) (sym (append-nil word))
fields_from-IsGraphic word (c ∷ s) rest h = rw (space_width-IsGraphic c (s ++ rest) h.0) (
    fields_from-IsGraphic (word ++ c ∷ []) s rest h.1
    ∙ ap (λ w. fields_from 0 w rest) (append_assoc word (c ∷ []) s))

space_width_blank : (s : Text) → space_width (b' ' ∷ s) ≡ 1
unfolding space_width space_width3
space_width_blank s = refl

fields_from-blank :
    (word s : Text) → fields_from 0 word (b' ' ∷ s) ≡ flush word (fields_from 0 [] s)
unfolding fields_from
fields_from-blank word s = rw (space_width_blank s) refl

flush_lem : (w : Text) (ws : List Text) → 1 ≤ length w → flush w ws ≡ w ∷ ws
flush_lem [] ws h = absurd (omega arith)
flush_lem (c ∷ w) ws h = refl

fields_from-nil : (w : Text) → fields_from 0 w [] ≡ flush w []
unfolding fields_from
fields_from-nil w = refl

-- Two words with a blank between them.
pub fields-two :
    (a b : Text)
    → All IsGraphic a
    → All IsGraphic b
    → 1 ≤ length a
    → 1 ≤ length b
    → fields (a ++ b' ' ∷ b) ≡ a ∷ b ∷ []
unfolding fields
fields-two a b ha hb la lb =
    let last : fields_from 0 [] b ≡ b ∷ [] =
      ap (fields_from 0 []) (sym (append-nil b))
      ∙ fields_from-IsGraphic [] b [] hb
      ∙ fields_from-nil b
      ∙ flush_lem b [] lb in
    fields_from-IsGraphic [] a (b' ' ∷ b) ha
    ∙ fields_from-blank a b
    ∙ flush_lem a _ la
    ∙ ap (a ∷◌) last
