-- ===== src/Runner/Loop.antt =====
-- `pollOnce` as a whole, `heartbeat` and `loop` of internal/runner/runner.go. A run of the loop is
-- the list of its turns, in the order in which the goroutine of the loop takes them.
pub mod Forever
pub mod Once
pub mod Wired
use sentnodes_agent.Base.{
  ℕ, Bool, true, false, not, ◌&&◌, Option, none, some, List, [], ◌∷◌, ◌++◌, if◌then◌else◌,
}
use sentnodes_agent.Api.{ApiError, ApiResult, answer, error, is_auth_err}
use sentnodes_agent.Base.Got.{Got, got, failed}
use sentnodes_agent.Base.Int.{ℤ}
use sentnodes_agent.Base.Text.{Text, equal, is_empty}
use sentnodes_agent.Check.{Signals, signals_map}
use sentnodes_agent.Config.{Config, Outside, Snapshot, node_config_snapshot}
use sentnodes_agent.Docker.{Engine, Called, answered, refused, panics}
use sentnodes_agent.Docker.State.{DockerState, inspect}
use sentnodes_agent.Float.{Floats}
use sentnodes_agent.Keys.{Identity, Account}
use sentnodes_agent.Runner.Enroll.{Try, Settings, Agent, reenroll, refresh_identity}
use sentnodes_agent.Runner.Handlers.{Payload, ResultMap, Node, Surroundings, handlers}
use sentnodes_agent.Runner.Poll.{Command, Event, run_batch}

-- What the goroutine of the loop owns.
pub record Running : Type 0 where
  pub agent : Agent
  pub node : Node
  pub logged_latest : Text

-- What an enrollment under way meets: whether the state file can be removed, and the attempts.
pub record Attempts : Type 0 where
  pub removed : Bool
  pub first : Try
  pub others : List Try

module _ (fl : Floats) (env : Surroundings fl) (s : Settings) where
  abbrev pub Commands : Type 0
  Commands = List (Command (Payload fl.Float))

  -- The surroundings with the identity of the moment.
  abbrev pub env_of : Agent → Surroundings fl
  env_of a = record env { id = a.id }

  abbrev pub log_latest : (latest : Text) → Running → Running
  log_latest latest r =
      if not (is_empty latest) && not (equal latest s.version) && not (equal latest r.logged_latest)
      then record r { logged_latest = latest }
      else r

  abbrev pub run_polled : Commands → Running → Running
  run_polled cmds r = record r { node = (run_batch (handlers fl (env_of r.agent)) cmds r.node).0 }

  abbrev pub poll_failed : Bool → Attempts → Running → Running
  poll_failed true t r = record r { agent = (reenroll s t.removed t.first t.others r.agent).0 }
  poll_failed false t r = r

  abbrev pub polled : Attempts → ApiResult (Commands × Text) → Running → Running
  polled t (error e) r = poll_failed (is_auth_err e) t r
  polled t (answer (cmds, latest)) r = run_polled cmds (log_latest latest r)

  -- `pollOnce` on the answer of Poll
  unfoldable pub poll_once : ApiResult (Commands × Text) → Attempts → Running → Running
  unfolding run_batch reenroll equal
  poll_once reply t r = polled t reply r

  -- A turn of the loop. The heartbeat and the metrics change nothing that the loop owns.
  pub data Turn : Type 0 where
    poll_turn : ApiResult (Commands × Text) → Attempts → Turn
    heartbeat_turn metrics_turn : Turn
    settled_turn : (key : Got Account) → Attempts → Turn

  abbrev pub settled : Got Account → Attempts → Running → Running
  settled key t r = record r {
    agent = (refresh_identity s key t.removed t.first t.others r.agent).0;
  }

  -- One case of the select of `loop`.
  unfoldable pub take_turn : Turn → Running → Running
  unfolding poll_once refresh_identity
  take_turn (poll_turn reply t) r = poll_once reply t r
  take_turn heartbeat_turn r = r
  take_turn metrics_turn r = r
  take_turn (settled_turn key t) r = settled key t r

  unfoldable pub take_turns : List Turn → Running → Running
  unfolding take_turn
  take_turns [] r = r
  take_turns (t ∷ ts) r = take_turns ts (take_turn t r)

  -- `loop`: a poll, a heartbeat and the metrics, and then the turns until the context is cancelled.
  unfoldable pub loop : ApiResult (Commands × Text) → Attempts → List Turn → Running → Running
  unfolding take_turns
  loop reply t ts = take_turns (poll_turn reply t ∷ heartbeat_turn ∷ metrics_turn ∷ ts)

-- wire.Heartbeat
pub record Heartbeat : Type 0 where
  pub version : Text
  pub node_container : Text
  pub withdraw_destination : Text
  pub withdraw_min : ℕ
  pub withdraw_reserve : ℕ
  pub snapshot : Snapshot
  pub host_id : Text
  pub health_checks : List (Text × Bool)
  pub node_state : Option DockerState

abbrev pub heartbeat_of : Settings → Outside → Signals → Option DockerState → Heartbeat
heartbeat_of s out signals node_state = record {
  version = s.version;
  node_container = s.container_name;
  withdraw_destination = s.cfg.withdraw_addr;
  withdraw_min = s.cfg.withdraw_min;
  withdraw_reserve = s.cfg.withdraw_reserve;
  snapshot = node_config_snapshot out s.cfg;
  host_id = s.host_id;
  health_checks = signals_map signals;
  node_state = node_state;
}

abbrev pub with_state : (Option DockerState → Heartbeat) → Called DockerState → Called Heartbeat
with_state beat (answered st) = answered (beat (some st))
with_state beat (refused e) = answered (beat none)
with_state beat panics = panics

-- What `heartbeat` sends; `docker` is the client, if there is one.
unfoldable pub heartbeat :
    Settings
    → Outside
    → Signals
    → (container_id : Text) → (docker : Option Engine) → Called Heartbeat
unfolding node_config_snapshot inspect
heartbeat s out signals container_id none = answered (heartbeat_of s out signals none)
heartbeat s out signals container_id (some engine) =
    if is_empty container_id
    then answered (heartbeat_of s out signals none)
    else with_state (heartbeat_of s out signals) (inspect engine container_id)
