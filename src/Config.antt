-- ===== src/Config.antt =====
-- internal/config/config.go: the operator's settings and the values read from the node's config.toml.
-- The environment, the file system and the TOML library are arguments.
pub mod Limits
use sentnodes_agent.Base.{
  ℕ, ◌+◌, ◌*◌, ◌^◌, Bool, true, false, ◌&&◌, Option, none, some, List, [], ◌∷◌, ◌++◌, ◌==◌,
  if◌then◌else◌, ltb,
}
use sentnodes_agent.Base.Text.{Text, codes, is_empty}
use sentnodes_agent.Float.{Floats}

abbrev pub default_server_url : Text
default_server_url = codes "https://api.sentnodes.com"

abbrev pub default_node_home : Text
default_node_home = codes "/root/.sentinel-dvpnx"

abbrev pub fallback_rpc : Text
fallback_rpc = codes "https://rpc-sentinel.busurnode.com"

abbrev pub udvpn_per_p2p : ℕ
udvpn_per_p2p = 1_000_000

abbrev pub default_withdraw_min_udvpn : ℕ
default_withdraw_min_udvpn = 250 * udvpn_per_p2p

abbrev pub default_withdraw_reserve_udvpn : ℕ
default_withdraw_reserve_udvpn = 50 * udvpn_per_p2p

abbrev pub withdraw_floor_udvpn : ℕ
withdraw_floor_udvpn = 50 * udvpn_per_p2p

pub record Config : Type 0 where
  pub server_url : Text
  pub api_key : Text
  pub withdraw_addr : Text
  pub withdraw_min : ℕ
  pub withdraw_reserve : ℕ
  pub node_container : Text
  pub node_home : Text
  pub keyring_backend : Text
  pub keyring_name : Text
  pub from_name : Text
  pub chain_id : Text
  pub rpc_addrs : List Text
  pub moniker : Text
  pub gigabyte_prices : Text
  pub hourly_prices : Text
  pub oracle : Text
  pub gas : ℕ
  pub gas_prices : Text

-- `nodeToml`, flat.
pub record NodeToml : Type 0 where
  pub backend : Text
  pub name : Text
  pub addrs : List Text
  pub chain_id : Text
  pub from_name : Text
  pub gas : ℕ
  pub gas_prices : Text
  pub moniker : Text
  pub gigabyte_prices : Text
  pub hourly_prices : Text
  pub oracle_name : Text

pub data LoadError : Type 0 where
  key_required config_not_found : LoadError
  cannot_read parsing : Text → LoadError

-- What reading the file gives.
pub data ReadFile : Type 0 where
  content : Text → ReadFile
  not_exist : ReadFile
  read_error : Text → ReadFile

-- What `toml.Unmarshal` into `nodeToml` gives.
pub data Decoded : Type 0 where
  decoded : NodeToml → Decoded
  toml_error : Text → Decoded

pub data Loaded : Type 0 where
  loaded : Config → Loaded
  load_error : LoadError → Loaded

-- What is outside the program: the environment (an unset variable is empty), the files, and
-- `toml.Unmarshal`.
pub record Outside : Type 0 where
  pub getenv : Text → Text
  pub read_file : Text → ReadFile
  pub unmarshal : Text → Decoded

unfoldable pub env : Outside → Text → Text → Text
env out k d = if is_empty (out.getenv k) then d else out.getenv k

-- filepath.Join of a clean directory and a name
abbrev pub join_path : Text → Text → Text
join_path dir name = dir ++ b'/' ∷ name

abbrev pub config_path : Config → Text
config_path c = join_path c.node_home (codes "config.toml")

abbrev pub state_path : Config → Text
state_path c = join_path (join_path c.node_home (codes ".sentagent")) (codes "token")

unfoldable pub rpc_endpoints : Config → List Text
rpc_endpoints c = c.rpc_addrs ++ fallback_rpc ∷ []

unfoldable pub env_p2p_udvpn : Floats → Outside → Text → ℕ → ℕ
env_p2p_udvpn fl out k d =
    let v = out.getenv k in
    let f = fl.parse_float v in
    if is_empty v
    then d
    else if f.1 && fl.ge_zero f.0
    then fl.to_uint64 (fl.mul f.0 (fl.of_uint64 udvpn_per_p2p))
    else d

-- `Load` from the environment: the settings before the file is read.
unfoldable pub from_env : Floats → Outside → Config
unfolding env env_p2p_udvpn
from_env fl out = record {
  server_url = env out (codes "SENTNODES_SERVER_URL") default_server_url;
  api_key = out.getenv (codes "SENTNODES_AGENT_KEY");
  withdraw_addr = out.getenv (codes "WITHDRAWAL_ADDRESS");
  withdraw_min = env_p2p_udvpn fl out (codes "WITHDRAWAL_MIN") default_withdraw_min_udvpn;
  withdraw_reserve =
      env_p2p_udvpn fl out (codes "WITHDRAWAL_RESERVE") default_withdraw_reserve_udvpn;
  node_container = out.getenv (codes "DVPN_NODE_CONTAINER");
  node_home = env out (codes "DVPN_NODE_HOME") default_node_home;
  keyring_backend = [];
  keyring_name = [];
  from_name = [];
  chain_id = [];
  rpc_addrs = [];
  moniker = [];
  gigabyte_prices = [];
  hourly_prices = [];
  oracle = [];
  gas = 0;
  gas_prices = [];
}

-- The values of the file.
unfoldable pub with_toml : Config → NodeToml → Config
with_toml c nt = record c {
  keyring_backend = nt.backend;
  keyring_name = nt.name;
  from_name = nt.from_name;
  chain_id = nt.chain_id;
  rpc_addrs = nt.addrs;
  moniker = nt.moniker;
  gigabyte_prices = nt.gigabyte_prices;
  hourly_prices = nt.hourly_prices;
  oracle = nt.oracle_name;
  gas = if nt.gas == 0 then 200000 else nt.gas;
  gas_prices = nt.gas_prices;
}

abbrev pub parsed_config : Config → Decoded → Loaded
parsed_config c (toml_error e) = load_error (parsing e)
parsed_config c (decoded nt) = loaded (with_toml c nt)

abbrev pub with_file : Outside → Config → ReadFile → Loaded
with_file out c (content text) = parsed_config c (out.unmarshal text)
with_file out c not_exist = load_error config_not_found
with_file out c (read_error e) = load_error (cannot_read e)

-- `Load`
unfoldable pub load : Floats → Outside → Loaded
unfolding from_env with_toml
load fl out =
    let c = from_env fl out in
    if is_empty c.api_key
    then load_error key_required
    else with_file out c (out.read_file (config_path c))

-- `NodeConfigSnapshot`: moniker, gigabyte and hourly prices, oracle and RPC addresses as they stand
-- in the file now.
pub record Snapshot : Type 0 where
  pub moniker : Text
  pub gigabyte : Text
  pub hourly : Text
  pub oracle : Text
  pub rpc : List Text

abbrev pub no_snapshot : Snapshot
no_snapshot = record { moniker = []; gigabyte = []; hourly = []; oracle = []; rpc = [] }

abbrev pub snapshot_of : Decoded → Snapshot
snapshot_of (toml_error e) = no_snapshot
snapshot_of (decoded nt) = record {
  moniker = nt.moniker;
  gigabyte = nt.gigabyte_prices;
  hourly = nt.hourly_prices;
  oracle = nt.oracle_name;
  rpc = nt.addrs;
}

abbrev pub snapshot_file : Outside → ReadFile → Snapshot
snapshot_file out (content text) = snapshot_of (out.unmarshal text)
snapshot_file out not_exist = no_snapshot
snapshot_file out (read_error e) = no_snapshot

unfoldable pub node_config_snapshot : Outside → Config → Snapshot
node_config_snapshot out c = snapshot_file out (out.read_file (config_path c))
