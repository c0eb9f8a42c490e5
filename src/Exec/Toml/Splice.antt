-- ===== src/Exec/Toml/Splice.antt =====
-- `setKeyInTable` replaces the lines of one value and no other line.
use sentnodes_agent.Base.{
  true, false, Option, none, some, List, [], ◌∷◌, ◌++◌, arith, ◌≡◌, refl, ap, ◌∙◌, inl, inr,
  Bool-cases,
}
use mathlib.Core.Option
use sentnodes_agent.Base.Text.{Text, equal, index_byte, join}
use sentnodes_agent.Base.Text.Laws.{equal_iff}
use sentnodes_agent.Base.Int.{ℤ, is_positive, ◌+ℤ◌}
use sentnodes_agent.Exec.Toml.{
  table_header, is_key_line, bracket_delta, after_value, value_missing, new_line, replace_value,
  table_after, is_wanted, set_in_lines, line_end, lines_of, set_key_in_table,
}

-- The table that is current behind some lines.
abbrev pub table_behind : Text → List Text → Text
table_behind cur [] = cur
table_behind cur (line ∷ lines) = table_behind (table_after cur (table_header line)) lines

-- The depth of the brackets behind some lines.
abbrev pub depth_behind : ℤ → List Text → ℤ
depth_behind d [] = d
depth_behind d (line ∷ lines) = depth_behind (d +ℤ bracket_delta line) lines

-- `new` is `old` with one value of `key` in `table` replaced, read from the table `cur` on.
pub record Splice (table key literal cur : Text) (old new : List Text) : Type 0 where
  pub before : List Text
  pub line : Text
  pub value : List Text
  pub after : List Text
  pub was : old ≡ before ++ line ∷ (value ++ after)
  pub becomes : new ≡ before ++ new_line key literal line ∷ after
  pub in_table : table_behind cur before ≡ table
  pub no_header : table_header line ≡ none
  pub has_key : is_key_line line key ≡ true
  pub has_value : value_missing line (index_byte line b'=') ≡ false
  pub closed : is_positive (depth_behind (bracket_delta line) value) ≡ false

-- What `after_value` leaves is a suffix, behind lines that close the brackets.
record Closes (d : ℤ) (lines after : List Text) : Type 0 where
  value : List Text
  was : lines ≡ value ++ after
  closed : is_positive (depth_behind d value) ≡ false

after_value-Closes :
    (d : ℤ) (lines after : List Text) → after_value d lines ≡ some after → Closes d lines after
unfolding after_value
after_value-Closes d [] after e = elim (Bool-cases (is_positive d)) [
  | inl up ↦ absurd (ground arith)
  | inr down ↦ record { value = []; was = ground arith; closed = down }
]
after_value-Closes d (l ∷ lines) after e = elim (Bool-cases (is_positive d)) [
  | inl up ↦
      let c = after_value-Closes (d +ℤ bracket_delta l) lines after (rw up at e) in
      record { value = l ∷ c.value; was = ap (l ∷◌) c.was; closed = c.closed }
  | inr down ↦ record { value = []; was = ground arith; closed = down }
]

pub map-some :
    {A B : Type 0} (f : A → B) (o : Option A) (b : B)
    → Option.map f o ≡ some b
    → (a : A) × (o ≡ some a) × (b ≡ f a)
map-some f none b e = absurd (ground arith)
map-some f (some a) b e = (a, refl, ground arith)

pub is_wanted-holds :
    (table key cur line : Text) (h : Option Text)
    → is_wanted table key cur line h ≡ true
    → (h ≡ none) × (equal cur table ≡ true) × (is_key_line line key ≡ true)
is_wanted-holds table key cur line (some name) e = absurd (ground arith)
is_wanted-holds table key cur line none e = (refl, ground arith, ground arith)

replace_value-Closes :
    (key literal line : Text) (lines new : List Text)
    → replace_value key literal line lines ≡ some new
    → (value_missing line (index_byte line b'=') ≡ false)
      × ((after : List Text) × (new ≡ new_line key literal line ∷ after)
          × Closes (bracket_delta line) lines after)
unfolding replace_value
replace_value-Closes key literal line lines new e =
    elim (Bool-cases (value_missing line (index_byte line b'='))) [
      | inl bad ↦ absurd (ground arith)
      | inr good ↦
          let (after, found, same) = map-some (new_line key literal line ∷◌) _ new (rw good at e) in
          (good, (after, same, after_value-Closes (bracket_delta line) lines after found))
    ]

pub set_in_lines-Splice :
    (table key literal cur : Text) (old new : List Text)
    → set_in_lines table key literal cur old ≡ some new
    → Splice table key literal cur old new
unfolding set_in_lines
set_in_lines-Splice table key literal cur [] new e = absurd (ground arith)
set_in_lines-Splice table key literal cur (line ∷ lines) new e =
    elim (Bool-cases (is_wanted table key cur line (table_header line))) [
      | inl wanted ↦
          let (none_here, here, is_key) =
            is_wanted-holds table key cur line (table_header line) wanted in
          let (good, (after, same, c)) =
            replace_value-Closes key literal line lines new (rw wanted at e) in
          record {
            before = [];
            line = line;
            value = c.value;
            after = after;
            was = ap (line ∷◌) c.was;
            becomes = same;
            in_table = (equal_iff cur table).0 here;
            no_header = none_here;
            has_key = is_key;
            has_value = good;
            closed = c.closed;
          }
      | inr other ↦
          let (rest, found, same) = map-some (line ∷◌) _ new (rw other at e) in
          let s =
            set_in_lines-Splice table key literal (table_after cur (table_header line)) lines rest
              found in
          record {
            before = line ∷ s.before;
            line = s.line;
            value = s.value;
            after = s.after;
            was = ap (line ∷◌) s.was;
            becomes = same ∙ ap (line ∷◌) s.becomes;
            in_table = s.in_table;
            no_header = s.no_header;
            has_key = s.has_key;
            has_value = s.has_value;
            closed = s.closed;
          }
    ]

pub set_key_in_table-Splice :
    (text table key literal new : Text)
    → set_key_in_table text table key literal ≡ some new
    → (lines : List Text) × (new ≡ join lines (line_end text))
      × Splice table key literal [] (lines_of text) lines
unfolding set_key_in_table
set_key_in_table-Splice text table key literal new e =
    let (lines, found, same) =
      map-some (λ l. join l (line_end text)) (set_in_lines table key literal [] (lines_of text)) new
        e in
    (lines, same, set_in_lines-Splice table key literal [] (lines_of text) lines found)
