-- ===== src/Exec/Edit/Fallback.antt =====
-- The fallback of `applyConfigEdit`: what stands in the table that a library writes and reads back.
use sentnodes_agent.Base.{false, Option, none, some, List, if◌then◌else◌, ◌≡◌, refl, arith}
use mathlib.Core.Path.{subst}
use sentnodes_agent.Base.Got.{got, ◌>>=◌, >>=-eq-got}
use sentnodes_agent.Base.Text.{Text, codes, equal}
use sentnodes_agent.Base.Text.Laws.{equal_iff, equal_refl}
use sentnodes_agent.Exec.Edit.{
  Value, Table, text, texts, table, other, no_entries, entry, get_key, put_key, set_table, in_table,
  TomlLibrary, Files, Faults, apply_config_edit, put_prices,
}
use sentnodes_agent.Exec.Edit.Outcome.{Ends, fails, spliced, marshalled, apply_config_edit-Ends}
use sentnodes_agent.Exec.Toml.{TomlEdit, surgical_edit}

pub get_key-put_key :
    (m : Table) (k j : Text) (v : Value)
    → get_key (put_key m k v) j ≡ (if equal k j then some v else get_key m j)
unfolding get_key put_key
get_key-put_key no_entries k j v = refl
get_key-put_key (entry i w m) k j v =
    ground (arith, equal_iff i k, equal_iff i j, equal_iff k j, get_key-put_key m k j v)

-- `m'` is `m` with the table `name` changed and every other key kept.
pub record Changes (name : Text) (change : Table → Table) (m m' : Table) : Type 0 where
  pub old : Table
  pub was : get_key m name ≡ some (table old)
  pub becomes : get_key m' name ≡ some (table (change old))
  pub keeps : (j : Text) → equal name j ≡ false → get_key m' j ≡ get_key m j

put_key-Changes :
    (name : Text) (change : Table → Table) (m t : Table)
    → get_key m name ≡ some (table t)
    → Changes name change m (put_key m name (table (change t)))
put_key-Changes name change m t e = record {
  old = t;
  was = e;
  becomes = rw (get_key-put_key m name name (table (change t)), equal_refl name) refl;
  keeps = λ j ne. rw (get_key-put_key m name j (table (change t)), ne) refl;
}

set_table-Changes :
    (name : Text) (change : Table → Table) (m m' : Table) (o : Option Value)
    → get_key m name ≡ o
    → set_table name change m o ≡ got m'
    → Changes name change m m'
set_table-Changes name change m m' (some (table t)) e h =
    subst (λ (x : Table). Changes name change m x) (cc) (put_key-Changes name change m t e)
set_table-Changes name change m m' (some (text t)) e h = cc
set_table-Changes name change m m' (some (texts t)) e h = cc
set_table-Changes name change m m' (some (other t)) e h = cc
set_table-Changes name change m m' none e h = cc

in_table-Changes :
    (name : Text) (change : Table → Table) (m m' : Table)
    → in_table name change m ≡ got m'
    → Changes name change m m'
unfolding in_table
in_table-Changes name change m m' h = set_table-Changes name change m m' (get_key m name) refl h

-- go-toml reads back the table that it has written.
abbrev pub ReadsBack : TomlLibrary → Type 0
ReadsBack lib = (m : Table) (t : Text) → lib.marshal m ≡ got t → lib.unmarshal t ≡ got m

-- The library's view of a file went from one table to another by a change of the table `name`.
pub record FallsBack (lib : TomlLibrary) (name : Text) (change : Table → Table) (old new : Text)
    : Type 0 where
  pub m : Table
  pub m' : Table
  pub reads : lib.unmarshal old ≡ got m
  pub reads_new : lib.unmarshal new ≡ got m'
  pub changes : Changes name change m m'

-- What a library that reads back what it writes makes of a changed table: the new text reads as the
-- old one with the change made in the table that is asked for, and every other key kept.
pub marshal-FallsBack :
    (lib : TomlLibrary) (name : Text) (change : Table → Table) (old new : Text)
    → ReadsBack lib
    → ((lib.unmarshal old >>= in_table name change) >>= lib.marshal) ≡ got new
    → FallsBack lib name change old new
marshal-FallsBack lib name change old new law h =
    let (m', e, w) = >>=-eq-got (lib.unmarshal old >>= in_table name change) lib.marshal h in
    let (m, r, c) = >>=-eq-got (lib.unmarshal old) (in_table name change) e in
    record {
      m = m;
      m' = m';
      reads = r;
      reads_new = law m' new w;
      changes = in_table-Changes name change m m' c;
    }

abbrev Fallen :
    TomlLibrary → Files → List TomlEdit → Text → (Table → Table) → Files × Option Text → Type 0
Fallen lib f edits name change r = r.1 ≡ none → FallsBack lib name change f.config r.0.config

Ends-FallsBack :
    (lib : TomlLibrary) (f : Files) (edits : List TomlEdit) (name : Text) (change : Table → Table)
    {r : Files × Option Text}
    → ReadsBack lib
    → surgical_edit f.config edits ≡ none
    → Ends lib f edits (in_table name change) r
    → Fallen lib f edits name change r
Ends-FallsBack lib f edits name change law stuck (fails g e k) n = absurd (ground arith)
Ends-FallsBack lib f edits name change law stuck (spliced g t d s) n = absurd (ground arith)
Ends-FallsBack lib f edits name change law stuck (marshalled g t s w) n =
    marshal-FallsBack lib name change f.config g.config law w

-- With a library that reads back what it writes, an edit of a text that cannot be edited in place and
-- that succeeds leaves a file that reads as the old one with the change made in its table, and with
-- every other key of the file kept.
pub apply_config_edit-FallsBack :
    (lib : TomlLibrary) (faults : Faults) (f : Files) (edits : List TomlEdit) (name : Text)
    (change : Table → Table)
    → ReadsBack lib
    → surgical_edit f.config edits ≡ none
    → (apply_config_edit lib faults f edits (in_table name change)).1 ≡ none
    → FallsBack lib name change f.config
        (apply_config_edit lib faults f edits (in_table name change)).0.config
apply_config_edit-FallsBack lib faults f edits name change law stuck h =
    Ends-FallsBack lib f edits name change law stuck
      (apply_config_edit-Ends lib f edits (in_table name change) faults) h

-- The prices stand in the table of the node afterwards, and every other key of it is kept.
pub put_prices_lem :
    (gigabyte hourly : Text) (node : Table)
    → let node' = put_prices gigabyte hourly node in
      (get_key node' (codes "gigabyte_prices") ≡ some (text gigabyte))
      × (get_key node' (codes "hourly_prices") ≡ some (text hourly))
      × ((j : Text)
          → equal (codes "gigabyte_prices") j ≡ false
          → equal (codes "hourly_prices") j ≡ false
          → get_key node' j ≡ get_key node j)
unfolding put_prices
put_prices_lem gigabyte hourly node =
    let g : Text = codes "gigabyte_prices" in
    let h : Text = codes "hourly_prices" in
    let first = put_key node g (text gigabyte) in
    (
      rw (get_key-put_key first h g (text hourly), get_key-put_key node g g (text gigabyte))
          (unfold equal in refl),
      rw (get_key-put_key first h h (text hourly)) (unfold equal in refl),
      λ j n m.
          rw
            (
              get_key-put_key first h j (text hourly),
              m,
              get_key-put_key node g j (text gigabyte),
              n,
            )
            refl,
    )
