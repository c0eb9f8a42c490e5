-- ===== src/Exec/Status.antt =====
-- `Status` of internal/exec/exec.go.
use sentnodes_agent.Base.{List}
use sentnodes_agent.Base.Text.{Text}
use sentnodes_agent.Config.{Config}
use sentnodes_agent.Keys.{Identity}

-- The map that goes to the server.
pub record Status : Type 0 where
  pub operator : Text
  pub node : Text
  pub gigabyte_prices : Text
  pub hourly_prices : Text
  pub rpc_addrs : List Text
  pub chain_id : Text

abbrev pub status : Config → Identity → Status
status cfg id = record {
  operator = id.operator_addr;
  node = id.node_addr;
  gigabyte_prices = cfg.gigabyte_prices;
  hourly_prices = cfg.hourly_prices;
  rpc_addrs = cfg.rpc_addrs;
  chain_id = cfg.chain_id;
}
