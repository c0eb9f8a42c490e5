-- ===== src/Exec/Edit/Outcome.antt =====
-- What `applyConfigEdit` leaves in config.toml, with an error and without.
use sentnodes_agent.Base.{
  Option, none, some, List, [], ◌∷◌, ◌≡◌, inl, inr, refl, sym, Option-cases, ◌∙◌, ap,
}
use mathlib.Core.Path.{subst}
use sentnodes_agent.Base.Got.{Got, got, failed, ◌>>=◌}
use sentnodes_agent.Base.Text.{Text, join}
use sentnodes_agent.Exec.Edit.{
  Table, TomlLibrary, Files, Faults, rename_temp, write_temp, atomic_write, write_got, edited_text,
  edit_read, apply_config_edit,
}
use sentnodes_agent.Exec.Toml.{TomlEdit, set_key_in_table, surgical_edit, lines_of, line_end}
use sentnodes_agent.Exec.Toml.Splice.{Splice, set_key_in_table-Splice}

-- `new` is `old` with one value replaced for each edit in turn.
pub data Splices : Text → List TomlEdit → Text → Type 0 where
  unchanged : {t : Text} → Splices t [] t
  edit :
      {old new : Text} {e : TomlEdit} {edits : List TomlEdit} (lines : List Text)
      → Splice e.table e.key e.literal [] (lines_of old) lines
      → Splices (join lines (line_end old)) edits new
      → Splices old (e ∷ edits) new

-- `surgicalEdit` succeeds with all its edits made.
pub surgical_edit-Splices :
    (old new : Text) (edits : List TomlEdit)
    → surgical_edit old edits ≡ some new
    → Splices old edits new
unfolding surgical_edit
surgical_edit-Splices old new [] h = subst (λ t. Splices old [] t) (cc) unchanged
surgical_edit-Splices old new (e ∷ edits) h =
    elim (Option-cases (set_key_in_table old e.table e.key e.literal)) [
      | inl missing ↦
          let bad : ◌≡◌ {A = Option Text} none (some new) = rw (missing, surgical_edit) at h in cc
      | inr (next, found) ↦
          let (lines, same, one) = set_key_in_table-Splice old e.table e.key e.literal next found in
          edit lines one (
            subst (λ t. Splices t edits new) same
              (surgical_edit-Splices next new edits (rw (found, surgical_edit) at h)))
    ]

-- How a call of `applyConfigEdit` ends.
pub data Ends (lib : TomlLibrary) (f : Files) (edits : List TomlEdit) (mutate : Table → Got Table)
    : Files × Option Text → Type 0 where
  -- With an error the configuration is the old one.
  fails : (g : Files) (e : Text) → g.config ≡ f.config → Ends lib f edits mutate (g, some e)
  -- Without one it is the old text with the values replaced,
  spliced :
      (g : Files)
      → g.temp ≡ none
      → surgical_edit f.config edits ≡ some g.config
      → Splices f.config edits g.config
      → Ends lib f edits mutate (g, none)
  -- or, where the text cannot be edited, what the library writes of the changed table.
  marshalled :
      (g : Files)
      → g.temp ≡ none
      → surgical_edit f.config edits ≡ none
      → ((lib.unmarshal f.config >>= mutate) >>= lib.marshal) ≡ got g.config
      → Ends lib f edits mutate (g, none)

module _ (lib : TomlLibrary) (f : Files) (edits : List TomlEdit) (mutate : Table → Got Table) where
  abbrev EndsAs : Files × Option Text → Type 0
  EndsAs = Ends lib f edits mutate

  rename_temp-Ends :
      (r : Option Text) (bytes : Text)
      → ((g : Files) → g.config ≡ bytes → g.temp ≡ none → EndsAs (g, none))
      → EndsAs (rename_temp r f bytes)
  rename_temp-Ends none bytes good = good _ refl refl
  rename_temp-Ends (some e) bytes good = fails _ e refl

  write_temp-Ends :
      (w : Option (Text × Option Text)) (r : Option Text) (bytes : Text)
      → ((g : Files) → g.config ≡ bytes → g.temp ≡ none → EndsAs (g, none))
      → EndsAs (write_temp w r f bytes)
  write_temp-Ends none r bytes good = rename_temp-Ends r bytes good
  write_temp-Ends (some (e, left)) r bytes good = fails _ e refl

  atomic_write-Ends :
      (faults : Faults) (bytes : Text)
      → ((g : Files) → g.config ≡ bytes → g.temp ≡ none → EndsAs (g, none))
      → EndsAs (atomic_write faults f bytes)
  unfolding atomic_write
  atomic_write-Ends faults bytes good = write_temp-Ends faults.write faults.rename bytes good

  write_got-Ends :
      (faults : Faults) (r : Got Text)
      → ((bytes : Text)
          → r ≡ got bytes
          → (g : Files) → g.config ≡ bytes
          → g.temp ≡ none
          → EndsAs (g, none))
      → EndsAs (write_got faults f r)
  write_got-Ends faults (got bytes) good = atomic_write-Ends faults bytes (good bytes refl)
  write_got-Ends faults (failed e) good = fails f e refl

  edited_text-Ends :
      (bytes : Text)
      → edited_text lib f.config edits mutate ≡ got bytes
      → (g : Files) → g.config ≡ bytes
      → g.temp ≡ none
      → EndsAs (g, none)
  unfolding edited_text
  edited_text-Ends bytes h g e t = elim (Option-cases (surgical_edit f.config edits)) [
    | inl stuck ↦ marshalled g t stuck ((rw (stuck, edited_text) at h) ∙ ap got (sym e))
    | inr (new, done) ↦
        let same : ◌≡◌ {A = Got Text} (got new) (got bytes) = rw (done, edited_text) at h in
        let config : new ≡ g.config = cc in
        spliced g t (done ∙ ap some config) (
          subst (λ c. Splices f.config edits c) config
            (surgical_edit-Splices f.config new edits done))
  ]

  edit_read-Ends :
      (faults : Faults) (r : Option Text) → EndsAs (edit_read lib faults r f edits mutate)
  edit_read-Ends faults none = write_got-Ends faults _ edited_text-Ends
  edit_read-Ends faults (some e) = fails f e refl

  -- Whatever fails, an edit leaves the configuration as it was together with an error, or it
  -- returns no error and leaves the old text with its values replaced one by one, or, where the
  -- text cannot be edited, what the library writes of the changed table; then no temporary file is
  -- left.
  pub apply_config_edit-Ends :
      (faults : Faults) → Ends lib f edits mutate (apply_config_edit lib faults f edits mutate)
  unfolding apply_config_edit
  apply_config_edit-Ends faults = edit_read-Ends faults faults.read
