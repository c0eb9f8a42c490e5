-- ===== src/Exec/Toml/Lines.antt =====
-- The line that `setKeyInTable` of internal/exec/exec.go writes, as its own helpers read it.
use sentnodes_agent.Base.{
  ℕ, suc, true, false, ◌||◌, none, some, [], ◌∷◌, ◌++◌, ◌==◌, drop, length, drop-append, All,
  All-map, All-append, ◌≡◌, refl, sym, ap, ◌∙◌, arith,
}
use mathlib.Core.List.{append_assoc}
use mathlib.Core.Path.{subst}
use sentnodes_agent.Base.Int.{ℤ, pos, is_positive}
use sentnodes_agent.Base.Text.{
  Text, codes, is_empty, has_prefix, index_byte, trim_space, trim_blanks,
}
use sentnodes_agent.Base.Text.Laws.{IsGraphic, has_prefix-append}
use sentnodes_agent.Exec.Toml.{
  table_header, is_key_line, outside, bracket_step, bracket_scan, bracket_delta, value_missing,
  indent, new_line,
}
use sentnodes_agent.Exec.Toml.Trim.{
  IsBlank, IsBare, trim_blanks-blanks, trim_space-framed, indent-IsBlank, indent-blanks,
}

-- A key of small letters, digits and underscores.
pub record IsKey (key : Text) : Type 0 where
  pub head : ℕ
  pub tail : Text
  pub was : key ≡ head ∷ tail
  pub bare : All IsBare key

-- A value that ends on its line: visible at both ends, with brackets that close.
pub record IsLiteral (literal : Text) : Type 0 where
  pub first : ℕ
  pub middle : Text
  pub last : ℕ
  pub was : literal ≡ first ∷ (middle ++ last ∷ [])
  pub first_shows : IsGraphic first
  pub last_shows : IsGraphic last
  pub closed : is_positive (bracket_delta literal) ≡ false

index_byte-append :
    (p r : Text) (b : ℕ)
    → All (λ c. (c == b) ≡ false) p
    → index_byte (p ++ b ∷ r) b ≡ some (length p)
unfolding index_byte
index_byte-append [] r b h = ground arith
index_byte-append (c ∷ p) r b h = rw (h.0, index_byte-append p r b h.1) refl

drop-suc : (p r : Text) (b : ℕ) → drop (suc (length p)) (p ++ b ∷ r) ≡ r
drop-suc [] r b = refl
drop-suc (c ∷ p) r b = drop-suc p r b

-- A byte that does not count for the brackets.
abbrev IsNeutral : ℕ → Type 0
IsNeutral c = (c == b'"' || c == b'\'' || c == b'#' || c == b'[' || c == b']' || c == b'=') ≡ false

bracket_step-IsNeutral : (d : ℤ) (c : ℕ) → IsNeutral c → bracket_step (d, outside) c ≡ (d, outside)
bracket_step-IsNeutral d c h = ground arith

bracket_scan-IsNeutral :
    (d : ℤ) (p s : Text)
    → All IsNeutral p
    → bracket_scan (d, outside) (p ++ s) ≡ bracket_scan (d, outside) s
unfolding bracket_scan
bracket_scan-IsNeutral d [] s h = refl
bracket_scan-IsNeutral d (c ∷ p) s h =
    ap (λ st. bracket_scan st (p ++ s)) (bracket_step-IsNeutral d c h.0)
    ∙ bracket_scan-IsNeutral d p s h.1

IsBlank-IsNeutral : (ws : Text) → All IsBlank ws → All IsNeutral ws
IsBlank-IsNeutral ws h = All-map _ _ ws (λ c b. ground arith) h

IsBare-IsNeutral : (key : Text) → All IsBare key → All IsNeutral key
IsBare-IsNeutral key h = All-map _ _ key (λ c b. ground arith) h

table_header-bare :
    (line : Text) (a : ℕ) (s : Text) → IsBare a → trim_space line ≡ a ∷ s → table_header line ≡ none
unfolding table_header has_prefix
table_header-bare line a s b h =
    let no_bracket : (a == b'[') ≡ false = ground arith in rw (h, no_bracket) refl

index_byte-value :
    (p r : Text)
    → All IsNeutral p
    → value_missing (p ++ b'=' ∷ r) (index_byte (p ++ b'=' ∷ r) b'=') ≡ is_empty (trim_space r)
index_byte-value p r h =
    ap (value_missing (p ++ b'=' ∷ r))
      (index_byte-append p r b'=' (All-map _ _ p (λ c n. ground arith) h))
    ∙ ap (λ t. is_empty (trim_space t)) (drop-suc p r b'=')

-- What `setKeyInTable` reads of a line that it has written.
module _ (key literal line : Text) (k : IsKey key) (l : IsLiteral literal) where
  abbrev body : Text
  body = key ++ (codes " = " ++ literal)

  abbrev behind_head : Text
  behind_head = k.tail ++ (codes " = " ++ literal)

  body-head : body ≡ k.head ∷ behind_head
  body-head = ap (λ t. t ++ (codes " = " ++ literal)) k.was

  head-IsBare : IsBare k.head
  head-IsBare = (subst (λ t. All IsBare t) k.was k.bare).0

  trim_blanks-new_line : trim_blanks (new_line key literal line) ≡ body
  trim_blanks-new_line =
      ap (λ t. trim_blanks (indent line ++ t)) body-head
      ∙ trim_blanks-blanks (indent line) k.head behind_head (indent-IsBlank line) head-IsBare
      ∙ sym body-head

  pub indent-new_line : indent (new_line key literal line) ≡ indent line
  indent-new_line =
      ap (λ t. indent (indent line ++ t)) body-head
      ∙ indent-blanks (indent line) k.head behind_head (indent-IsBlank line) head-IsBare

  pub is_key_line-new_line : is_key_line (new_line key literal line) key ≡ true
  unfolding is_key_line trim_blanks has_prefix
  is_key_line-new_line =
      rw
        (
          trim_blanks-new_line,
          has_prefix-append key (codes " = " ++ literal),
          drop-append key (codes " = " ++ literal),
        )
        refl

  pub table_header-new_line : table_header (new_line key literal line) ≡ none
  table_header-new_line =
      let ends : body ≡ (key ++ (codes " = " ++ l.first ∷ l.middle)) ++ l.last ∷ [] =
        ap (λ t. key ++ (codes " = " ++ t)) l.was
        ∙ sym (append_assoc key (codes " = " ++ l.first ∷ l.middle) (l.last ∷ [])) in
      let shows : IsGraphic k.head = (let b = head-IsBare in ground arith) in
      table_header-bare (new_line key literal line) k.head behind_head head-IsBare (
        ap (λ t. trim_space (indent line ++ t)) body-head
        ∙ trim_space-framed (indent line) k.head behind_head
            (key ++ (codes " = " ++ l.first ∷ l.middle)) l.last (indent-IsBlank line) shows
            l.last_shows (sym body-head ∙ ends))

  front-IsNeutral : All IsNeutral ((indent line ++ key) ++ b' ' ∷ [])
  front-IsNeutral =
      All-append IsNeutral (indent line ++ key) (b' ' ∷ [])
        (All-append IsNeutral (indent line) key
          (IsBlank-IsNeutral (indent line) (indent-IsBlank line)) (IsBare-IsNeutral key k.bare))
        (refl, tt)

  front-new_line :
      new_line key literal line ≡ ((indent line ++ key) ++ b' ' ∷ []) ++ b'=' ∷ b' ' ∷ literal
  front-new_line =
      sym (append_assoc (indent line) key (codes " = " ++ literal))
      ∙ sym (append_assoc (indent line ++ key) (b' ' ∷ []) (b'=' ∷ b' ' ∷ literal))

  pub value_missing-new_line :
      value_missing (new_line key literal line) (index_byte (new_line key literal line) b'=')
      ≡ false
  value_missing-new_line =
      let trimmed : trim_space (b' ' ∷ literal) ≡ l.first ∷ (l.middle ++ l.last ∷ []) =
        ap (λ t. trim_space (b' ' ∷ t)) l.was
        ∙ trim_space-framed (b' ' ∷ []) l.first (l.middle ++ l.last ∷ []) (l.first ∷ l.middle)
            l.last (refl, tt) l.first_shows l.last_shows refl in
      ap (λ t. value_missing t (index_byte t b'=')) front-new_line
      ∙ index_byte-value ((indent line ++ key) ++ b' ' ∷ []) (b' ' ∷ literal) front-IsNeutral
      ∙ ap is_empty trimmed

  pub bracket_delta-new_line : is_positive (bracket_delta (new_line key literal line)) ≡ false
  unfolding bracket_delta bracket_scan
  bracket_delta-new_line =
      ap (λ t. is_positive (bracket_scan (pos 0, outside) t).0) front-new_line
      ∙ ap (λ st. is_positive st.0)
          (bracket_scan-IsNeutral (pos 0) ((indent line ++ key) ++ b' ' ∷ [])
            (b'=' ∷ b' ' ∷ literal) front-IsNeutral)
      ∙ l.closed
