-- ===== src/Exec/Toml/Again.antt =====
-- Edits of one key of config.toml one behind the other: the last one counts.
use sentnodes_agent.Base.{
  true, false, some, List, [], ◌∷◌, ◌++◌, arith, ◌≡◌, refl, sym, ap, ◌∙◌, inl, inr, Bool-cases,
}
use mathlib.Core.Option
use sentnodes_agent.Base.Int.{ℤ, is_positive}
use sentnodes_agent.Base.Text.{Text, codes, equal, index_byte}
use sentnodes_agent.Exec.Toml.{
  table_header, bracket_delta, after_value, value_missing, new_line, replace_value, table_after,
  is_wanted, set_in_lines,
}
use sentnodes_agent.Exec.Toml.Lines.{
  IsKey, IsLiteral, indent-new_line, is_key_line-new_line, table_header-new_line,
  value_missing-new_line, bracket_delta-new_line,
}
use sentnodes_agent.Exec.Toml.Splice.{map-some, is_wanted-holds}

-- A value that is closed takes no further line.
after_value-closed :
    (d : ℤ) (lines : List Text) → is_positive d ≡ false → after_value d lines ≡ some lines
unfolding after_value
after_value-closed d [] h = rw h refl
after_value-closed d (l ∷ lines) h = rw h refl

replace_value-direct :
    (key literal line : Text) (lines after : List Text)
    → value_missing line (index_byte line b'=') ≡ false
    → after_value (bracket_delta line) lines ≡ some after
    → replace_value key literal line lines ≡ some (new_line key literal line ∷ after)
unfolding replace_value
replace_value-direct key literal line lines after good found = rw (good, found) refl

module _ (table key literal cur line : Text) (lines : List Text) where
  set_in_lines-wanted :
      is_wanted table key cur line (table_header line) ≡ true
      → set_in_lines table key literal cur (line ∷ lines) ≡ replace_value key literal line lines
  unfolding set_in_lines
  set_in_lines-wanted h = rw h refl

  set_in_lines-other :
      is_wanted table key cur line (table_header line) ≡ false
      → set_in_lines table key literal cur (line ∷ lines)
        ≡ Option.map
            (line ∷◌)
            (set_in_lines table key literal (table_after cur (table_header line)) lines)
  unfolding set_in_lines
  set_in_lines-other h = rw h refl

module _ (table key literal later : Text) (k : IsKey key) (l : IsLiteral literal) where
  new_line-again :
      (line : Text) → new_line key later (new_line key literal line) ≡ new_line key later line
  new_line-again line =
      ap (λ t. t ++ (key ++ (codes " = " ++ later))) (indent-new_line key literal line k l)

  replace_value-written :
      (line : Text) (lines : List Text)
      → replace_value key later (new_line key literal line) lines
        ≡ some (new_line key later line ∷ lines)
  unfolding replace_value
  replace_value-written line lines =
      rw
        (
          value_missing-new_line key literal line k l,
          after_value-closed (bracket_delta (new_line key literal line)) lines
              (bracket_delta-new_line key literal line k l),
        )
        (ap (λ t. some (t ∷ lines)) (new_line-again line))

  replace_value-again :
      (line : Text) (lines mid : List Text)
      → replace_value key literal line lines ≡ some mid
      → (after : List Text) × (mid ≡ new_line key literal line ∷ after)
        × (replace_value key later line lines ≡ some (new_line key later line ∷ after))
  unfolding replace_value
  replace_value-again line lines mid e =
      elim (Bool-cases (value_missing line (index_byte line b'='))) [
        | inl bad ↦ absurd (ground arith)
        | inr good ↦
            let (after, found, same) =
              map-some (new_line key literal line ∷◌) _ mid (rw good at e) in
            (after, same, replace_value-direct key later line lines after good found)
      ]

  is_wanted-written :
      (cur line : Text)
      → equal cur table ≡ true
      → is_wanted table key cur
          (new_line key literal line)
          (table_header (new_line key literal line))
        ≡ true
  is_wanted-written cur line here =
      rw
        (
          table_header-new_line key literal line k l,
          here,
          is_key_line-new_line key literal line k l,
        )
        refl

  set_in_lines-written :
      (cur line : Text) (after : List Text)
      → equal cur table ≡ true
      → set_in_lines table key later cur (new_line key literal line ∷ after)
        ≡ some (new_line key later line ∷ after)
  unfolding set_in_lines
  set_in_lines-written cur line after here =
      rw (is_wanted-written cur line here) (replace_value-written line after)

  -- For a key of small letters, digits and underscores and a value that is visible at both ends
  -- and closes its brackets, when the loop of `setKeyInTable` has set the key, setting it again to
  -- any value gives what setting it to that value at once gives: the second edit finds the line
  -- that the first has written, takes the place of it alone, and keeps every other line.
  pub set_in_lines-again :
      (cur : Text) (old mid : List Text)
      → set_in_lines table key literal cur old ≡ some mid
      → set_in_lines table key later cur mid ≡ set_in_lines table key later cur old
  unfolding set_in_lines
  set_in_lines-again cur [] mid e = absurd (ground arith)
  set_in_lines-again cur (line ∷ lines) mid e =
      elim (Bool-cases (is_wanted table key cur line (table_header line))) [
        | inl wanted ↦
            let (none_here, here, is_key) =
              is_wanted-holds table key cur line (table_header line) wanted in
            let (after, same, direct) = replace_value-again line lines mid (rw wanted at e) in
            ap (λ ls. set_in_lines table key later cur ls) same
            ∙ set_in_lines-written cur line after here
            ∙ sym direct
            ∙ sym (set_in_lines-wanted table key later cur line lines wanted)
        | inr other ↦
            let (rest, found, same) = map-some (line ∷◌) _ mid (rw other at e) in
            let more = set_in_lines-again (table_after cur (table_header line)) lines rest found in
            ap (λ ls. set_in_lines table key later cur ls) same
            ∙ set_in_lines-other table key later cur line rest other
            ∙ ap (Option.map (line ∷◌)) more
            ∙ sym (set_in_lines-other table key later cur line lines other)
      ]
