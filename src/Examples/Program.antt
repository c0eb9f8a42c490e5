-- ===== src/Examples/Program.antt =====
-- A concrete run of the whole program: internal/runner/runner.go.
use sentnodes_agent.Base.{true, false, none, some, [], ◌∷◌, if◌then◌else◌}
use sentnodes_agent.Api.{answer}
use sentnodes_agent.Base.Text.{Text, codes, equal}
use sentnodes_agent.Config.{Config, Outside, content, decoded, from_env, with_toml}
use sentnodes_agent.Examples.Client.{host}
use sentnodes_agent.Examples.Commands.{node}
use sentnodes_agent.Examples.Enrollment.{good_try, machine, attempts}
use sentnodes_agent.Examples.Handlers.{wrapped, no_library, withdrawals}
use sentnodes_agent.Examples.Messages.{operator}
use sentnodes_agent.Examples.Wired.{wired_world}
use sentnodes_agent.Runner.Enroll.{register_req, Settings}
use sentnodes_agent.Runner.Limits.{enforce_limits}
use sentnodes_agent.Runner.Loop.{Running, heartbeat_turn}
use sentnodes_agent.Runner.Program.{World, run_loop}
use sentnodes_agent.Runner.Start.{Ready}

-- The address of the toy key, and every other variable `x`.
abbrev variables : Text → Text
variables k = if equal k (codes "WITHDRAWAL_ADDRESS") then codes "sent1qypqxh800ep" else codes "x"

abbrev environment : Outside
environment = record {
  getenv = variables;
  read_file = λ p. content (codes "t");
  unmarshal = λ t. decoded node;
}

abbrev program : World wrapped
program = record {
  environment = environment;
  version = codes "v1";
  machine = machine;
  first = good_try;
  others = [];
  lib = no_library;
  faults = λ n. record { peek = none; read = none; write = none; rename = none };
  outs = λ n. wired_world;
  engines = λ n. host;
  files = record { config = codes "old"; temp = none };
  log = none;
  reply = answer (withdrawals, codes "v2");
  attempts = attempts;
  turns = λ env s. heartbeat_turn ∷ [];
}

abbrev program_config : Config
program_config = with_toml (from_env wrapped environment) node

abbrev program_settings : Settings
program_settings = record {
  cfg = enforce_limits program_config;
  host_id = codes "h";
  container_name = [];
  version = codes "v1";
}

abbrev program_ready : Ready
program_ready = record {
  settings = program_settings;
  agent = record {
    id = operator.identity;
    token = codes "tok";
    file = some (codes "sentnode1abc tok");
    asked = register_req program_settings operator (codes "nonce") ∷ [];
  };
  signals = record {
    volume = true;
    config = true;
    keyring = true;
    backend = true;
    container = false;
    server = true;
  };
  container_id = [];
}

abbrev program_end : Running
program_end = run_loop wrapped program program_ready
