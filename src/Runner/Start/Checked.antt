-- ===== src/Runner/Start/Checked.antt =====
-- What holds of a runner that enters the loop.
use sentnodes_agent.Base.{◌≤◌, true, List, ◌≡◌, ◌⊎◌}
use sentnodes_agent.Base.Got.{Got}
use sentnodes_agent.Base.Text.{Text, codes, equal, is_empty}
use sentnodes_agent.Bech32.{is_valid}
use sentnodes_agent.Config.{Config, withdraw_floor_udvpn}
use sentnodes_agent.Runner.Enroll.{Try}
use sentnodes_agent.Runner.Limits.{enforce_limits}
use sentnodes_agent.Runner.Start.{
  Machine, Ready, Started, start_error, cancelled, ready, is_config_valid,
}

-- The prerequisites of the loop, for a runner with the loaded configuration `cfg`.
pub record IsReady (cfg : Config) (machine : Machine) (r : Ready) : Type 0 where
  pub limited : r.settings.cfg ≡ enforce_limits cfg
  pub min_floor : withdraw_floor_udvpn ≤ r.settings.cfg.withdraw_min
  pub reserve_floor : withdraw_floor_udvpn ≤ r.settings.cfg.withdraw_reserve
  pub good_addr :
      (is_empty r.settings.cfg.withdraw_addr ≡ true)
      ⊎ (is_valid r.settings.cfg.withdraw_addr (codes "sent") ≡ true)
  pub readable : machine.config_readable ≡ true
  pub valid : is_config_valid r.settings.cfg ≡ true
  pub backend : equal r.settings.cfg.keyring_backend (codes "test") ≡ true
  pub keyring_signal : r.signals.keyring ≡ true
  pub server_signal : r.signals.server ≡ true

module _ (version : Text) (machine : Machine) (first : Try) (others : List Try) (cfg : Config) where
  abbrev AsReady : Started → Type 0
  AsReady (start_error e) = Unit
  AsReady cancelled = Unit
  AsReady (ready r) = IsReady cfg machine r

  abbrev c : Config
  c = enforce_limits cfg
