-- ===== src/Exec/Edit.antt =====
-- The edits of config.toml in internal/exec/exec.go, with their fallback and their writes.
-- The TOML library is an argument, and so is what goes wrong with the files.
pub mod Atomic
pub mod Outcome
pub mod Fallback
pub mod Url
use sentnodes_agent.Base.{
  Bool, true, false, not, ◌&&◌, Option, none, some, List, [], ◌∷◌, ◌++◌, if◌then◌else◌,
}
use sentnodes_agent.Base.Got.{Got, got, failed, ◌>>=◌}
use sentnodes_agent.Base.Text.{Text, codes, equal}
use sentnodes_agent.Exec.Edit.Url.{http_url_with_port}
use sentnodes_agent.Exec.Toml.{TomlEdit, surgical_edit, toml_string, toml_string_array}

-- map[string]interface{} as go-toml fills it. A value of a kind that the code does not look into is
-- `other`, with its text.
mutual
  pub data Value : Type 0 where
    text : Text → Value
    texts : List Text → Value
    table : Table → Value
    other : Text → Value

  pub data Table : Type 0 where
    no_entries : Table
    entry : Text → Value → Table → Table

-- m[key]
unfoldable pub get_key : Table → Text → Option Value
unfolding equal
get_key no_entries key = none
get_key (entry k v m) key = if equal k key then some v else get_key m key

-- m[key] = v
unfoldable pub put_key : Table → Text → Value → Table
unfolding equal
put_key no_entries key v = entry key v no_entries
put_key (entry k w m) key v = if equal k key then entry k v m else entry k w (put_key m key v)

-- go-toml: Unmarshal into a map, Marshal, and Unmarshal into the struct of `readOsmosisAddr`.
pub record TomlLibrary : Type 0 where
  pub unmarshal : Text → Got Table
  pub marshal : Table → Got Text
  pub osmosis_addr : Text → Got Text

-- config.toml and the temporary file beside it.
pub record Files : Type 0 where
  pub config : Text
  pub temp : Option Text

-- The errors of the file system during one edit; `peek` is that of `readOsmosisAddr`, and a write
-- that fails leaves some temporary file.
pub record Faults : Type 0 where
  pub peek : Option Text
  pub read : Option Text
  pub write : Option (Text × Option Text)
  pub rename : Option Text

abbrev pub rename_temp : Option Text → Files → Text → Files × Option Text
rename_temp none f bytes = (record { config = bytes; temp = none }, none)
rename_temp (some e) f bytes = (record f { temp = some bytes }, some e)

abbrev pub write_temp :
    Option (Text × Option Text) → Option Text → Files → Text → Files × Option Text
write_temp none rename f bytes = rename_temp rename f bytes
write_temp (some (e, left)) rename f bytes = (record f { temp = left }, some e)

-- `atomicWrite`: the files that it leaves, and its error.
unfoldable pub atomic_write : Faults → Files → Text → Files × Option Text
atomic_write faults f bytes = write_temp faults.write faults.rename f bytes

abbrev pub write_got : Faults → Files → Got Text → Files × Option Text
write_got faults f (got bytes) = atomic_write faults f bytes
write_got faults f (failed e) = (f, some e)

-- What `applyConfigEdit` writes of the text that it has read.
unfoldable pub edited_text : TomlLibrary → Text → List TomlEdit → (Table → Got Table) → Got Text
unfolding surgical_edit
edited_text lib config edits mutate = elim (surgical_edit config edits) [
  | some t ↦ got t
  | none ↦ (lib.unmarshal config >>= mutate) >>= lib.marshal
]

abbrev pub edit_read :
    TomlLibrary
    → Faults
    → Option Text
    → Files
    → List TomlEdit
    → (Table → Got Table)
    → Files × Option Text
edit_read lib faults (some e) f edits mutate = (f, some e)
edit_read lib faults none f edits mutate =
    write_got faults f (edited_text lib f.config edits mutate)

-- `applyConfigEdit`
unfoldable pub apply_config_edit :
    TomlLibrary → Faults → Files → List TomlEdit → (Table → Got Table) → Files × Option Text
unfolding atomic_write edited_text
apply_config_edit lib faults f edits mutate = edit_read lib faults faults.read f edits mutate

abbrev pub set_table : Text → (Table → Table) → Table → Option Value → Got Table
set_table name change m (some (table t)) = got (put_key m name (table (change t)))
set_table name change m _ = failed (codes "config.toml has no [" ++ (name ++ codes "] table"))

-- `m[name].(map[string]interface{})`, changed in place.
unfoldable pub in_table : Text → (Table → Table) → Table → Got Table
unfolding get_key put_key
in_table name change m = set_table name change m (get_key m name)

abbrev pub node_edit : (key value : Text) → TomlEdit
node_edit key value = record { table = codes "node"; key = key; literal = toml_string value }

-- What `EditPrices` does to the table of the node when the text cannot be edited.
unfoldable pub put_prices : (gigabyte hourly : Text) → Table → Table
unfolding put_key
put_prices gigabyte hourly node =
    put_key (put_key node (codes "gigabyte_prices") (text gigabyte)) (codes "hourly_prices")
      (text hourly)

unfoldable pub put_moniker : Text → Table → Table
unfolding put_key
put_moniker moniker node = put_key node (codes "moniker") (text moniker)

unfoldable pub put_addrs : List Text → Table → Table
unfolding put_key
put_addrs addrs rpc = put_key rpc (codes "addrs") (texts addrs)

abbrev pub default_osmosis_lcd : Text
default_osmosis_lcd = codes "https://lcd.osmosis.zone:443"

-- `osm, _ := oracle["osmosis"].(map[string]interface{})`, made when it is not there.
abbrev pub as_table : Option Value → Table
as_table (some (table t)) = t
as_table _ = no_entries

unfoldable pub put_oracle : Bool → Text → Table → Table
unfolding get_key put_key
put_oracle set_default name oracle =
    let o = put_key oracle (codes "name") (text name) in
    let osm = as_table (get_key o (codes "osmosis")) in
    let osm' = put_key osm (codes "api_addr") (text default_osmosis_lcd) in
    if set_default then put_key o (codes "osmosis") (table osm') else o

-- `readOsmosisAddr`
abbrev pub addr_or_empty : Got Text → Text
addr_or_empty (got addr) = addr
addr_or_empty (failed e) = []

unfoldable pub read_osmosis_addr : TomlLibrary → Faults → Text → Text
read_osmosis_addr lib faults config = elim faults.peek [
  | some e ↦ []
  | none ↦ addr_or_empty (lib.osmosis_addr config)
]

abbrev pub oracle_edits : Bool → Text → List TomlEdit
oracle_edits set_default name =
    let first : TomlEdit = record {
      table = codes "oracle";
      key = codes "name";
      literal = toml_string name;
    } in
    let second : TomlEdit = record {
      table = codes "oracle.osmosis";
      key = codes "api_addr";
      literal = toml_string default_osmosis_lcd;
    } in
    if set_default then first ∷ second ∷ [] else first ∷ []

unfoldable pub sets_osmosis_default : TomlLibrary → Faults → Text → Text → Bool
unfolding equal http_url_with_port read_osmosis_addr
sets_osmosis_default lib faults config name =
    equal name (codes "osmosis") && not (http_url_with_port (read_osmosis_addr lib faults config))

module _ (lib : TomlLibrary) (faults : Faults) (f : Files) where
  -- `EditPrices`
  unfoldable pub edit_prices : (gigabyte hourly : Text) → Files × Option Text
  unfolding apply_config_edit in_table put_prices
  edit_prices gigabyte hourly =
      apply_config_edit lib faults f
        (node_edit (codes "gigabyte_prices") gigabyte
          ∷ node_edit (codes "hourly_prices") hourly
          ∷ [])
        (in_table (codes "node") (put_prices gigabyte hourly))

  -- `EditRPC`
  unfoldable pub edit_rpc : List Text → Files × Option Text
  unfolding apply_config_edit in_table put_addrs
  edit_rpc addrs =
      apply_config_edit lib faults f
        (record { table = codes "rpc"; key = codes "addrs"; literal = toml_string_array addrs }
          ∷ [])
        (in_table (codes "rpc") (put_addrs addrs))

  -- `EditMoniker`
  unfoldable pub edit_moniker : Text → Files × Option Text
  unfolding apply_config_edit in_table put_moniker
  edit_moniker moniker =
      apply_config_edit lib faults f (node_edit (codes "moniker") moniker ∷ [])
        (in_table (codes "node") (put_moniker moniker))

  -- `EditOracle`
  unfoldable pub edit_oracle : Text → Files × Option Text
  unfolding apply_config_edit in_table put_oracle sets_osmosis_default
  edit_oracle name =
      let set_default = sets_osmosis_default lib faults f.config name in
      apply_config_edit lib faults f (oracle_edits set_default name)
        (in_table (codes "oracle") (put_oracle set_default name))
