-- ===== src/Exec/Toml/Whole.antt =====
-- `setKeyInTable` of internal/exec/exec.go on whole texts, one edit behind the other.
use sentnodes_agent.Base.{
  ℕ, false, some, List, [], ◌∷◌, ◌++◌, All, All-append, All-map, ◌≡◌, refl, sym, ap, ◌∙◌, ◌==◌,
  ◌&&◌, arith, inl, inr, Bool-cases,
}
use mathlib.Core.Option
use mathlib.Core.List.{append_assoc}
use mathlib.Core.Path.{subst}
use sentnodes_agent.Base.Text.{Text, codes, has_prefix, on_head, split, join}
use sentnodes_agent.Exec.Toml.{
  has_crlf, drop_crlf, indent, new_line, set_in_lines, line_end, lines_of, set_key_in_table,
}
use sentnodes_agent.Exec.Toml.Again.{set_in_lines-again}
use sentnodes_agent.Exec.Toml.Lines.{IsKey, IsLiteral}
use sentnodes_agent.Exec.Toml.Splice.{Splice, map-some, set_in_lines-Splice}
use sentnodes_agent.Exec.Toml.Trim.{indent-IsBlank}
use sentnodes_agent.Exec.Withdraw.Log.{IsLine, split-line}

drop_crlf-none : (s : Text) → has_crlf s ≡ false → drop_crlf s ≡ s
unfolding has_crlf drop_crlf
drop_crlf-none [] h = refl
drop_crlf-none (c ∷ s) h = elim (Bool-cases (c == b'\r' && has_prefix s (b'\n' ∷ []))) [
  | inl two ↦ absurd (ground (arith, rw two at h))
  | inr one ↦ rw one (ap (c ∷◌) (drop_crlf-none s (rw one at h)))
]

on_head-IsLine :
    (c : ℕ) (ls : List Text) → (c == b'\n') ≡ false → All IsLine ls → All IsLine (on_head c ls)
on_head-IsLine c [] n h = ((ground arith, tt), tt)
on_head-IsLine c (l ∷ ls) n h = ((ground arith, h.0), h.1)

-- What `Split` cuts at the ends of lines are lines.
split-IsLine : (s : Text) → All IsLine (split s b'\n')
unfolding split
split-IsLine [] = (tt, tt)
split-IsLine (c ∷ s) = elim (Bool-cases (c == b'\n')) [
  | inl cut ↦ rw cut (tt, split-IsLine s)
  | inr other ↦ rw other (on_head-IsLine c (split s b'\n') other (split-IsLine s))
]

split-one : (l : Text) → IsLine l → split l b'\n' ≡ l ∷ []
unfolding split
split-one [] h = refl
split-one (c ∷ l) h =
    let other : (c == b'\n') ≡ false = ground (arith, h.0) in
    rw other (ap (on_head c) (split-one l h.1))

-- Lines that are joined are cut into the same lines.
split-join :
    (l : Text) (ls : List Text)
    → All IsLine (l ∷ ls)
    → split (join (l ∷ ls) (codes "\n")) b'\n' ≡ l ∷ ls
unfolding join
split-join l [] h = split-one l h.0
split-join l (m ∷ ls) h =
    ap (λ t. split t b'\n') (append_assoc l (codes "\n") (join (m ∷ ls) (codes "\n")))
    ∙ split-line l (join (m ∷ ls) (codes "\n")) h.0
    ∙ ap (l ∷◌) (split-join m ls h.1)

All-behind : (xs ys : List Text) → All IsLine (xs ++ ys) → All IsLine xs × All IsLine ys
All-behind [] ys h = (tt, h)
All-behind (x ∷ xs) ys h = let (front, back) = All-behind xs ys h.1 in ((h.0, front), back)

new_line-IsLine :
    (key literal line : Text) → IsKey key → IsLine literal → IsLine (new_line key literal line)
new_line-IsLine key literal line k l =
    All-append _ (indent line) _
      (All-map _ _ (indent line) (λ c b. ground arith) (indent-IsBlank line))
      (All-append _ key _ (All-map _ _ key (λ c b. ground arith) k.bare)
        (ground arith, (ground arith, (ground arith, l))))

-- An edit of lines gives lines, one at least.
Splice-IsLine :
    (table key literal cur : Text) (old new : List Text)
    → IsKey key
    → IsLine literal
    → All IsLine old
    → Splice table key literal cur old new
    → All IsLine new
Splice-IsLine table key literal cur old new k l h s =
    let (front, back) =
      All-behind s.before (s.line ∷ (s.value ++ s.after)) (subst (λ ls. All IsLine ls) s.was h) in
    let (value, after) = All-behind s.value s.after back.1 in
    subst (λ ls. All IsLine ls) (sym s.becomes)
      (All-append _ s.before _ front (new_line-IsLine key literal s.line k l, after))

split-join-append :
    (before : List Text) (x : Text) (after : List Text)
    → All IsLine (before ++ x ∷ after)
    → split (join (before ++ x ∷ after) (codes "\n")) b'\n' ≡ before ++ x ∷ after
split-join-append [] x after h = split-join x after h
split-join-append (b ∷ bs) x after h = split-join b (bs ++ x ∷ after) h

lines_of-Splice :
    (table key literal cur : Text) (old new : List Text) (mid : Text)
    → IsKey key
    → IsLine literal
    → All IsLine old
    → Splice table key literal cur old new
    → mid ≡ join new (codes "\n")
    → has_crlf mid ≡ false
    → lines_of mid ≡ new
lines_of-Splice table key literal cur old new mid k l h s same n =
    let are_lines =
      subst (λ ls. All IsLine ls) s.becomes (Splice-IsLine table key literal cur old new k l h s) in
    ap (λ t. split t b'\n')
      (drop_crlf-none mid n ∙ same ∙ ap (λ ls. join ls (codes "\n")) s.becomes)
    ∙ split-join-append s.before (new_line key literal s.line) s.after are_lines
    ∙ sym s.becomes

line_end-none : (text : Text) → has_crlf text ≡ false → line_end text ≡ codes "\n"
line_end-none text h = rw h refl

-- On a text without carriage returns at the ends of its lines, before and after the first edit,
-- for a key of small letters, digits and underscores and a value on one line that is visible at
-- both ends and closes its brackets: when `setKeyInTable` has set the key, setting it again to any
-- value gives what setting it to that value at once gives, on success and on failure.
pub set_key_in_table-again :
    (text table key literal later mid : Text)
    → IsKey key
    → IsLiteral literal
    → IsLine literal
    → has_crlf text ≡ false
    → has_crlf mid ≡ false
    → set_key_in_table text table key literal ≡ some mid
    → set_key_in_table mid table key later ≡ set_key_in_table text table key later
unfolding set_key_in_table
set_key_in_table-again text table key literal later mid k l one_line n n' e =
    let (lines, found, same) =
      map-some (λ ls. join ls (line_end text)) (set_in_lines table key literal [] (lines_of text))
        mid e in
    let same_end = line_end-none mid n' ∙ sym (line_end-none text n) in
    let s = set_in_lines-Splice table key literal [] (lines_of text) lines found in
    let joined = same ∙ ap (λ end. join lines end) (line_end-none text n) in
    let read =
      lines_of-Splice table key literal [] (lines_of text) lines mid k one_line
        (split-IsLine (drop_crlf text)) s joined n' in
    ap (λ end. Option.map (λ ls. join ls end) (set_in_lines table key later [] (lines_of mid)))
      same_end
    ∙ ap (Option.map (λ ls. join ls (line_end text))) (
        ap (set_in_lines table key later []) read
        ∙ set_in_lines-again table key literal later k l [] (lines_of text) lines found)
