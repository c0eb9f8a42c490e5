-- ===== src/Runner/Program.antt =====
-- `Run` of internal/runner/runner.go as a whole: the configuration, the start and the loop, with the
-- keyring, the client of the chain and docker in place.
pub mod Safe
use sentnodes_agent.Base.{ℕ, Option, none, some, List, []}
use sentnodes_agent.Api.{ApiResult}
use sentnodes_agent.Base.Text.{Text}
use sentnodes_agent.Config
use sentnodes_agent.Config.{Config, load}
use sentnodes_agent.Docker.{Engine}
use sentnodes_agent.Exec.Edit.{TomlLibrary, Files, Faults}
use sentnodes_agent.Exec.Withdraw.Wired.{Outside, answers_of}
use sentnodes_agent.Float.{Floats}
use sentnodes_agent.Keys.{Identity}
use sentnodes_agent.Runner.Enroll.{Try, Settings}
use sentnodes_agent.Runner.Handlers.{Payload, Surroundings}
use sentnodes_agent.Runner.Loop.{Running, Attempts, Turn, loop}
use sentnodes_agent.Runner.Loop.Wired.{wired}
use sentnodes_agent.Runner.Poll.{Command}
use sentnodes_agent.Runner.Start.{Machine, Ready, Started, start_error, cancelled, ready, start}

-- What a run of the program meets: the environment and the machine, the attempts of the
-- enrollment, the TOML library and the faults of the files, the keyring and the chain and docker
-- as the calls of the loop meet them, the files and the log at the start, the first poll, and the
-- turns of the loop.
pub record World (fl : Floats) : Type 0 where
  pub environment : sentnodes_agent.Config.Outside
  pub version : Text
  pub machine : Machine
  pub first : Try
  pub others : List Try
  pub lib : TomlLibrary
  pub faults : ℕ → Faults
  pub outs : ℕ → Outside
  pub engines : ℕ → Engine
  pub files : Files
  pub log : Option Text
  pub reply : ApiResult (List (Command (Payload fl.Float)) × Text)
  pub attempts : Attempts
  pub turns : (env : Surroundings fl) (s : Settings) → List (Turn fl env s)

module _ (fl : Floats) (world : World fl) where
  -- The surroundings of the handlers of a runner.
  abbrev pub surroundings : (cfg : Config) → Identity → (container_id : Text) → Surroundings fl
  surroundings cfg id container_id = record {
    cfg = cfg;
    id = id;
    container_id = container_id;
    lib = world.lib;
    faults = world.faults;
    answers = λ n. answers_of (world.outs n) cfg;
    restart_error = λ n. none;
  }

  abbrev pub env_of_ready : Ready → Surroundings fl
  env_of_ready r =
      wired fl (surroundings r.settings.cfg r.agent.id r.container_id) world.outs world.engines

  -- The runner that enters the loop.
  abbrev pub entering : Ready → Running
  entering r = record {
    agent = r.agent;
    node = record { files = world.files; log = world.log; sent = []; restarts = 0; calls = 0 };
    logged_latest = [];
  }

  unfoldable pub run_loop : Ready → Running
  unfolding loop wired
  run_loop r =
      loop fl (env_of_ready r) r.settings world.reply world.attempts
        (world.turns (env_of_ready r) r.settings) (entering r)

  -- There is no loop after an error of the start, or when the context is cancelled before it.
  abbrev pub after_start : Started → Option Running
  after_start (start_error e) = none
  after_start cancelled = none
  after_start (ready r) = some (run_loop r)

  -- `Run`: what the loop leaves, if it is entered.
  unfoldable pub run : Option Running
  unfolding load start run_loop
  run =
      after_start
        (start world.version world.machine world.first world.others (load fl world.environment))
