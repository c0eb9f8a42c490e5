-- ===== src/Exec/Withdraw/Pays.antt =====
-- A withdrawal that succeeds under a new key makes its key paid.
use sentnodes_agent.Base.{
  ℕ, Bool, true, Option, none, some, List, [], ◌∷◌, ◌++◌, All, All-append, Bool-cases, ◌≡◌, refl,
  sym, ap, ◌∙◌, inl, inr, arith, if◌then◌else◌,
}
use mathlib.Core.List.{append_assoc, append-nil}
use mathlib.Core.Path.{subst}
use sentnodes_agent.Base.Text.{Text, is_empty, split}
use sentnodes_agent.Base.Text.Laws.{fields-two, equal_refl}
use sentnodes_agent.Config.{Config}
use sentnodes_agent.Exec.Withdraw.{
  entry_or, lookup_lines, lookup_withdraw, log_entry, record_withdraw, Answers, Outcome,
  open_withdraw, withdraw,
}
use sentnodes_agent.Exec.Withdraw.Log.{
  unlines, IsLine, split-unlines, text_of, AreLines, IsWord, entry, entry-IsLine,
  lookup_lines-append, lookup_lines-front,
}
use sentnodes_agent.Exec.Withdraw.Once.{open_withdraw-Records, is_empty-word}
use sentnodes_agent.Exec.Withdraw.Paid.{Paid}
use sentnodes_agent.Float.{Floats}

unlines-append : (ls ms : List Text) → unlines (ls ++ ms) ≡ unlines ls ++ unlines ms
unlines-append [] ms = refl
unlines-append (l ∷ ls) ms =
    ap (λ t. l ++ b'\n' ∷ t) (unlines-append ls ms)
    ∙ sym (append_assoc l (b'\n' ∷ unlines ls) (unlines ms))

module _ (key hash : Text) (k : IsWord key) (h : IsWord hash) where
  one_entry : unlines (entry key hash k h ∷ []) ≡ log_entry key hash
  one_entry = append_assoc key (b' ' ∷ hash) (b'\n' ∷ [])

  entry-found : lookup_lines (entry key hash k h ∷ []) key ≡ hash
  unfolding lookup_lines
  entry-found =
      ap (λ ws. entry_or key ws []) (fields-two key hash k.0 h.0 k.1 h.1)
      ∙ ap (λ (b : Bool). if b then hash else []) (equal_refl key)

  recorded_lines-Paid :
      (ls : List Text)
      → All IsLine ls
      → lookup_lines ls key ≡ []
      → Paid key hash (some (unlines ls ++ log_entry key hash))
  recorded_lines-Paid ls a e = record {
    lines = ls ++ entry key hash k h ∷ [];
    rest = [];
    was = ap some (
        sym (
          append-nil (unlines (ls ++ entry key hash k h ∷ []))
          ∙ unlines-append ls (entry key hash k h ∷ [])
          ∙ ap (λ t. unlines ls ++ t) one_entry));
    are_lines = All-append IsLine ls (entry key hash k h ∷ []) a (entry-IsLine key hash k h, tt);
    found = lookup_lines-append ls (entry key hash k h ∷ []) key e ∙ entry-found;
    filled = is_empty-word hash h;
  }

  record_withdraw-Paid :
      (ls : Option (List Text))
      → AreLines ls
      → lookup_withdraw (text_of ls) key ≡ []
      → Paid key hash (some (record_withdraw (text_of ls) key hash))
  unfolding lookup_withdraw record_withdraw lookup_lines
  record_withdraw-Paid none a e = recorded_lines-Paid [] tt refl
  record_withdraw-Paid (some ls) a e =
      let whole : split (unlines ls) b'\n' ≡ ls ++ split [] b'\n' =
        ap (λ t. split t b'\n') (sym (append-nil (unlines ls))) ∙ split-unlines ls [] a in
      recorded_lines-Paid ls a (
        lookup_lines-front ls (split [] b'\n') key (ap (λ ms. lookup_lines ms key) (sym whole) ∙ e))

-- A withdrawal under a key that the log does not have, that succeeds and that is recorded, with a
-- key and a hash of visible text, makes the key paid.
pub withdraw-pays :
    (fl : Floats) (cfg : Config) (ans : Answers) (asked : ℕ) (all : Bool) (key : Text)
    (ls : Option (List Text))
    → AreLines ls
    → IsWord key
    → ans.recorded ≡ true
    → lookup_withdraw (text_of ls) key ≡ []
    → (withdraw fl cfg ans asked all key (text_of ls)).error ≡ none
    → IsWord (withdraw fl cfg ans asked all key (text_of ls)).hash
    → Paid key
        (withdraw fl cfg ans asked all key (text_of ls)).hash
        (withdraw fl cfg ans asked all key (text_of ls)).log
unfolding withdraw
withdraw-pays fl cfg ans asked all key ls a k rec new e h =
    elim (Bool-cases (is_empty cfg.withdraw_addr)) [
      | inl off ↦ absurd (ground (arith, rw off at e))
      | inr on ↦
          let fresh : is_empty (lookup_withdraw (text_of ls) key) ≡ true = ap is_empty new in
          rw (on, fresh)
            (let o : Outcome = open_withdraw fl cfg ans (text_of ls) key all asked ans.key in
              let wrote =
                open_withdraw-Records cfg ans (text_of ls) key rec fl all asked ans.key
                  (rw (on, fresh) at e) in
              subst (λ l. Paid key o.hash l) (sym wrote)
                (record_withdraw-Paid key o.hash k (rw (on, fresh) at h) ls a new))
    ]
