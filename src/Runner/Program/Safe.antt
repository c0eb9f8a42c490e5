-- ===== src/Runner/Program/Safe.antt =====
-- What a run of the whole program may broadcast.
use sentnodes_agent.Base.{ℕ, ◌+◌, ◌≤◌, Bool, true, ◌≡◌}
use sentnodes_agent.Base.Text.{Text, codes}
use sentnodes_agent.Bech32.{is_valid}
use sentnodes_agent.Config.{Config, withdraw_floor_udvpn}
use sentnodes_agent.Exec.Withdraw.{compute_fee}
use sentnodes_agent.Exec.Withdraw.Wired.Safe.{IsPayment}
use sentnodes_agent.Float.{Floats}
use sentnodes_agent.Protobuf.{Bytes}
use sentnodes_agent.Runner.Program.{World}

module _ (fl : Floats) (world : World fl) where
  -- A payment of the configuration behind the checks of `Run`, within the floor of both limits.
  pub record IsLimitedTx (cfg : Config) (tx : Bytes) : Type 0 where
    pub call : ℕ
    pub all : Bool
    pub asked : ℕ
    pub payment :
        IsPayment cfg (world.outs call) (compute_fee fl cfg.gas cfg.gas_prices) all asked tx
    pub to_environment : cfg.withdraw_addr ≡ world.environment.getenv (codes "WITHDRAWAL_ADDRESS")
    pub to_valid : is_valid cfg.withdraw_addr (codes "sent") ≡ true
    pub at_least : withdraw_floor_udvpn ≤ payment.amount
    pub leaves :
        payment.amount + compute_fee fl cfg.gas cfg.gas_prices + withdraw_floor_udvpn ≤ payment.bal

  -- The address of the environment.
  abbrev FromEnvironment : Config → Type 0
  FromEnvironment cfg = cfg.withdraw_addr ≡ world.environment.getenv (codes "WITHDRAWAL_ADDRESS")
