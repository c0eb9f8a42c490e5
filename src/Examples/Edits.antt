-- ===== src/Examples/Edits.antt =====
-- Concrete edits of config.toml: internal/exec/exec.go.
use sentnodes_agent.Base.{none, some, [], ◌∷◌, ◌++◌, length, take, drop, ◌≡◌, ◌⊎◌}
use sentnodes_agent.Base.Got.{Got, got, failed}
use sentnodes_agent.Base.Text.{Text, codes}
use sentnodes_agent.Exec.Edit.{
  Table, text, table, no_entries, entry, TomlLibrary, Files, Faults, atomic_write, in_table,
  put_prices, apply_config_edit,
}
use sentnodes_agent.Exec.Edit.Atomic.{
  Write, written, whole, here, next, Reach, returned, Reach-whole, atomic_write-Reach,
}
use sentnodes_agent.Exec.Edit.Outcome.{Ends, apply_config_edit-Ends}

abbrev before_edit : Files
before_edit = record { config = codes "old"; temp = none }

abbrev new_text : Text
new_text = codes "new"

Reach-whole_example :
    let w : Write = record {
      stage = written;
      files = record before_edit { temp = some new_text };
    } in
    (w.files.config ≡ before_edit.config) ⊎ (w.files.config ≡ new_text)
Reach-whole_example = Reach-whole before_edit new_text _ (next here (whole before_edit))

abbrev no_faults : Faults
no_faults = record { peek = none; read = none; write = none; rename = none }

atomic_write-Reach_example :
    Reach before_edit new_text (returned (atomic_write no_faults before_edit new_text))
atomic_write-Reach_example = atomic_write-Reach no_faults before_edit new_text

-- A format of files that hold the prices of a node and nothing else: each text with its length.
abbrev pack : Text → Text → Text
pack t rest = length t ∷ t ++ rest

abbrev front : Text → Text
front [] = []
front (n ∷ s) = take n s

abbrev behind : Text → Text
behind [] = []
behind (n ∷ s) = drop n s

abbrev prices_table : (key first second gigabyte hourly : Text) → Table
prices_table key first second gigabyte hourly =
    entry key (table (entry first (text gigabyte) (entry second (text hourly) no_entries)))
      no_entries

abbrev pack_prices : (key first second gigabyte hourly : Text) → Text
pack_prices key first second gigabyte hourly =
    pack key (pack first (pack second (pack gigabyte (pack hourly []))))

abbrev read_prices : Text → Table
read_prices s =
    prices_table (front s) (front (behind s)) (front (behind (behind s)))
      (front (behind (behind (behind s)))) (front (behind (behind (behind (behind s)))))

abbrev marshal_prices : Table → Got Text
marshal_prices
      (entry key
        (table (entry first (text gigabyte) (entry second (text hourly) no_entries)))
        no_entries) =
    got (pack_prices key first second gigabyte hourly)
marshal_prices _ = failed []

abbrev packed : TomlLibrary
packed = record {
  unmarshal = λ s. got (read_prices s);
  marshal = marshal_prices;
  osmosis_addr = λ s. failed [];
}

abbrev packed_file : Files
packed_file = record {
  config =
      pack_prices (codes "node") (codes "gigabyte_prices") (codes "hourly_prices") (codes "5")
        (codes "6");
  temp = none;
}

apply_config_edit-Ends_example :
    Ends packed before_edit [] (in_table (codes "node") (put_prices (codes "7") (codes "8"))) (
      apply_config_edit packed no_faults before_edit []
        (in_table (codes "node") (put_prices (codes "7") (codes "8"))))
apply_config_edit-Ends_example =
    apply_config_edit-Ends packed before_edit []
      (in_table (codes "node") (put_prices (codes "7") (codes "8"))) no_faults
