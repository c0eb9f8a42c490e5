-- ===== src/Runner/Start.antt =====
-- `Run` of internal/runner/runner.go up to the loop.
pub mod Checked
use sentnodes_agent.Base.{
  Bool, true, false, not, ◌&&◌, Option, none, some, List, [], ◌∷◌, if◌then◌else◌,
}
use sentnodes_agent.Base.Got.{Got, got, failed}
use sentnodes_agent.Base.Text.{Text, codes, equal, is_empty}
use sentnodes_agent.Check.{Signals}
use sentnodes_agent.Config.{Config, LoadError, Loaded, loaded, load_error}
use sentnodes_agent.Keys.{Identity, Account}
use sentnodes_agent.Runner.Enroll.{Try, Settings, Agent, ensure_enrolled}
use sentnodes_agent.Runner.Limits.{enforce_limits}

-- What `Run` meets of the machine: the probes of the files, the key, and the docker client with
-- the id and the name of the container that it discovers, if there is a client.
pub record Machine : Type 0 where
  pub config_readable : Bool
  pub home_writable : Bool
  pub key : Config → Got Account
  pub docker : Config → Option (Got (Text × Text))
  pub state_file : Option Text
  pub host_id : Text

pub data StartError : Type 0 where
  not_loaded : LoadError → StartError
  no_signer : Text → StartError
  config_not_readable config_not_valid backend_not_test : StartError

-- The runner that enters the loop.
pub record Ready : Type 0 where
  pub settings : Settings
  pub agent : Agent
  pub signals : Signals
  pub container_id : Text

-- `cancelled` is the return of nil while waiting to register.
pub data Started : Type 0 where
  start_error : StartError → Started
  cancelled : Started
  ready : Ready → Started

abbrev no_addrs : List Text → Bool
no_addrs [] = true
no_addrs (a ∷ addrs) = false

unfoldable pub is_config_valid : Config → Bool
is_config_valid c = not (is_empty c.from_name) && not (no_addrs c.rpc_addrs)

abbrev pub discovered : Option (Got (Text × Text)) → Bool × (Text × Text)
discovered (some (got (id, name))) = (true, (id, name))
discovered _ = (false, ([], []))

module _ (version : Text) (machine : Machine) (first : Try) (others : List Try) where
  abbrev pub after_enroll : Settings → Signals → Text → Agent × Bool → Started
  after_enroll s signals container_id (a, false) = cancelled
  after_enroll s signals container_id (a, true) = ready (record {
    settings = s;
    agent = a;
    signals = record signals { server = true };
    container_id = container_id;
  })

  -- The discovery of the container and the enrollment.
  abbrev pub enter : Config → Signals → Identity → Bool × (Text × Text) → Started
  enter c signals id (found, (container_id, name)) =
      let s : Settings = record {
        cfg = c;
        host_id = machine.host_id;
        container_name = name;
        version = version;
      } in
      let a : Agent = record { id = id; token = []; file = machine.state_file; asked = [] } in
      after_enroll s (record signals { container = found }) container_id
        (ensure_enrolled s first others a)

  -- The hard prerequisites.
  unfoldable pub preflight : Config → Signals → Identity → Started
  unfolding ensure_enrolled is_config_valid
  preflight c signals id =
      if not machine.config_readable
      then start_error config_not_readable
      else if not (is_config_valid c)
      then start_error config_not_valid
      else if not signals.backend
      then start_error backend_not_test
      else enter c signals id (discovered (machine.docker c))

  abbrev pub with_identity : Config → Signals → Got Account → Started
  with_identity c signals (failed e) = start_error (no_signer e)
  with_identity c signals (got signer) =
      preflight c (record signals { keyring = true }) signer.identity

  unfoldable pub first_signals : Config → Signals
  unfolding is_config_valid equal
  first_signals cfg = record {
    volume = machine.config_readable && machine.home_writable;
    config = is_config_valid cfg && machine.home_writable;
    keyring = false;
    backend = equal cfg.keyring_backend (codes "test");
    container = false;
    server = false;
  }

  -- `Run`, on what Load returns, up to the call of `loop`.
  unfoldable pub start : Loaded → Started
  unfolding enforce_limits preflight first_signals
  start (load_error e) = start_error (not_loaded e)
  start (loaded cfg) =
      let c = enforce_limits cfg in with_identity c (first_signals cfg) (machine.key c)
