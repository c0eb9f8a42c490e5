-- ===== src/Exec/Withdraw/Log.antt =====
-- The log of withdrawals: what is recorded is found.
use sentnodes_agent.Base.{
  ℕ, zero, suc, ◌≤◌, Bool, false, Option, none, some, List, [], ◌∷◌, ◌++◌, All, All-append, length,
  Bool-cases, ◌==◌, if◌then◌else◌, ◌≡◌, ◌≢◌, refl, sym, ap, ◌∙◌, inl, inr, arith,
}
use mathlib.Core.List.{append_assoc, append-nil}
use sentnodes_agent.Base.Text.{Text, equal, split, on_head, fields, fields_from, flush, space_width}
use sentnodes_agent.Base.Text.Laws.{IsGraphic, fields-two, equal_refl}
use sentnodes_agent.Exec.Withdraw.{
  entry_or, lookup_lines, lookup_withdraw, log_entry, record_withdraw,
}

-- The text of lines, each with its end.
abbrev pub unlines : List Text → Text
unlines [] = []
unlines (l ∷ ls) = l ++ b'\n' ∷ unlines ls

abbrev pub IsLine : Text → Type 0
IsLine = All (λ c. c ≢ b'\n')

pub split-line : (l s : Text) → IsLine l → split (l ++ b'\n' ∷ s) b'\n' ≡ l ∷ split s b'\n'
unfolding split
split-line [] s h = refl
split-line (c ∷ l) s (h, hs) =
    let other : (c == b'\n') ≡ false = ground arith in rw other (ap (on_head c) (split-line l s hs))

pub split-unlines :
    (ls : List Text) (s : Text)
    → All IsLine ls
    → split (unlines ls ++ s) b'\n' ≡ ls ++ split s b'\n'
split-unlines [] s h = refl
split-unlines (l ∷ ls) s (h, hs) =
    ap (λ t. split t b'\n') (append_assoc l (b'\n' ∷ unlines ls) s)
    ∙ split-line l (unlines ls ++ s) h
    ∙ ap (l ∷◌) (split-unlines ls s hs)

abbrev Filled : Text → Type 0
Filled w = 1 ≤ length w

flush-Filled : (w : Text) (ws : List Text) → All Filled ws → All Filled (flush w ws)
flush-Filled [] ws h = h
flush-Filled (c ∷ w) ws h = (omega arith, h)

fields_from-Filled : (k : ℕ) (w s : Text) → All Filled (fields_from k w s)
unfolding fields_from
fields_from-Filled k w [] = flush-Filled w [] tt
fields_from-Filled (suc k) w (c ∷ s) = fields_from-Filled k w s
fields_from-Filled zero w (c ∷ s) = elim (Bool-cases (space_width (c ∷ s) == 0)) [
  | inl inside ↦ rw inside (fields_from-Filled 0 (w ++ c ∷ []) s)
  | inr blank ↦ rw blank (flush-Filled w _ (fields_from-Filled _ [] s))
]

-- A lookup that finds nothing has passed the entry over.
entry_or-empty :
    (key : Text) (ws : List Text) (x y : Text)
    → All Filled ws
    → entry_or key ws x ≡ []
    → (x ≡ []) × (entry_or key ws y ≡ y)
entry_or-empty key [] x y h e = (e, refl)
entry_or-empty key (name ∷ []) x y h e = (e, refl)
entry_or-empty key (name ∷ hash ∷ more) x y (f, (g, h)) e = elim (Bool-cases (equal name key)) [
  | inl here ↦ let bare : hash ≡ [] = rw here at e in absurd (omega (arith, g, ap length bare))
  | inr other ↦ (rw other at e, rw other refl)
]

pub lookup_lines-append :
    (ls ms : List Text) (key : Text)
    → lookup_lines ls key ≡ []
    → lookup_lines (ls ++ ms) key ≡ lookup_lines ms key
unfolding lookup_lines fields
lookup_lines-append [] ms key e = refl
lookup_lines-append (l ∷ ls) ms key e =
    let (nil, skips) =
      entry_or-empty key (fields l) (lookup_lines ls key) (lookup_lines (ls ++ ms) key)
        (fields_from-Filled 0 [] l) e in
    skips ∙ lookup_lines-append ls ms key nil

pub lookup_lines-front :
    (ls ms : List Text) (key : Text) → lookup_lines (ls ++ ms) key ≡ [] → lookup_lines ls key ≡ []
unfolding lookup_lines fields
lookup_lines-front [] ms key e = refl
lookup_lines-front (l ∷ ls) ms key e =
    let (nil, skips) =
      entry_or-empty key (fields l) (lookup_lines (ls ++ ms) key) (lookup_lines ls key)
        (fields_from-Filled 0 [] l) e in
    skips ∙ lookup_lines-front ls ms key nil

-- A log that is not there, or one of whole lines.
abbrev pub text_of : Option (List Text) → Option Text
text_of none = none
text_of (some ls) = some (unlines ls)

abbrev pub AreLines : Option (List Text) → Type 0
AreLines none = Unit
AreLines (some ls) = All IsLine ls

-- Visible text that is not empty.
abbrev pub IsWord : Text → Type 0
IsWord w = All IsGraphic w × (1 ≤ length w)

pub IsGraphic-IsLine : (w : Text) → All IsGraphic w → IsLine w
IsGraphic-IsLine [] h = tt
IsGraphic-IsLine (c ∷ w) (h, hs) = (omega arith, IsGraphic-IsLine w hs)

module _ (key hash : Text) (k : IsWord key) (h : IsWord hash) where
  abbrev pub entry : Text
  entry = key ++ b' ' ∷ hash

  pub entry-IsLine : IsLine entry
  entry-IsLine =
      All-append (λ c. c ≢ b'\n') key (b' ' ∷ hash) (IsGraphic-IsLine key k.0)
        (omega arith, IsGraphic-IsLine hash h.0)

  pub split-log_entry : split (log_entry key hash) b'\n' ≡ entry ∷ [] ∷ []
  split-log_entry =
      ap (λ t. split t b'\n') (sym (append_assoc key (b' ' ∷ hash) (b'\n' ∷ [])))
      ∙ split-line entry [] entry-IsLine
      ∙ ap (entry ∷◌) (unfold split in refl)

  pub lookup_lines-entry : lookup_lines (entry ∷ [] ∷ []) key ≡ hash
  unfolding lookup_lines
  lookup_lines-entry =
      let last : Text = lookup_lines ([] ∷ []) key in
      ap (λ ws. entry_or key ws last) (fields-two key hash k.0 h.0 k.1 h.1)
      ∙ ap (λ (b : Bool). if b then hash else last) (equal_refl key)

  -- The lookup finds what was recorded, behind whatever lines that do not have the key.
  pub lookup_withdraw-record_withdraw :
      (ls : Option (List Text))
      → AreLines ls
      → lookup_withdraw (text_of ls) key ≡ []
      → lookup_withdraw (some (record_withdraw (text_of ls) key hash)) key ≡ hash
  unfolding lookup_withdraw record_withdraw
  lookup_withdraw-record_withdraw none a e =
      ap (λ ms. lookup_lines ms key) split-log_entry ∙ lookup_lines-entry
  lookup_withdraw-record_withdraw (some ls) a e =
      let whole : split (unlines ls) b'\n' ≡ ls ++ split [] b'\n' =
        ap (λ t. split t b'\n') (sym (append-nil (unlines ls))) ∙ split-unlines ls [] a in
      let passed : lookup_lines ls key ≡ [] =
        lookup_lines-front ls (split [] b'\n') key
          (ap (λ ms. lookup_lines ms key) (sym whole) ∙ e) in
      ap (λ ms. lookup_lines ms key) (split-unlines ls (log_entry key hash) a)
      ∙ lookup_lines-append ls (split (log_entry key hash) b'\n') key passed
      ∙ ap (λ ms. lookup_lines ms key) split-log_entry
      ∙ lookup_lines-entry
