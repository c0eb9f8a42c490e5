-- ===== src/Examples/Enrollment.antt =====
-- Concrete enrollments, a start and a run of the loop: internal/runner/runner.go.
use sentnodes_agent.Base.{true, false, none, some, List, [], ◌∷◌, All, ◌≡◌, refl, ap, arith, inr}
use mathlib.Core.Path.{subst}
use sentnodes_agent.Base.Text.Laws.{IsGraphic}
use sentnodes_agent.Api.{api_error, answer, error}
use sentnodes_agent.Base.Got.{got, failed}
use sentnodes_agent.Base.Text.{Text, codes}
use sentnodes_agent.Config.{Config}
use sentnodes_agent.Examples.Commands.{settings}
use sentnodes_agent.Examples.Handlers.{wrapped, around, node_with, withdrawals, paid_node, log-Paid}
use sentnodes_agent.Examples.Messages.{operator}
use sentnodes_agent.Exec.Withdraw.Paid.{Paid}
use sentnodes_agent.Keys.{Account}
use sentnodes_agent.Runner.Enroll.{
  write_works, Try, Settings, Agent, register_req, enroll, ensure_enrolled,
}
use sentnodes_agent.Runner.Enroll.Eventually.{IsGood, ensure_enrolled-works}
use sentnodes_agent.Runner.Enroll.Resume.{IsVisible, IsSound, restarted, ensure_enrolled-resumes}
use sentnodes_agent.Runner.Loop.{
  Running, Attempts, Turn, poll_turn, heartbeat_turn, settled_turn, loop,
}
use sentnodes_agent.Runner.Loop.Forever.{loop-StaysPaid}
use sentnodes_agent.Runner.Start.{Machine, Ready}
use sentnodes_agent.Runner.State.{read_state}
use sentnodes_agent.Runner.Watch.{Input, message, received, fired, taken}

-- An attempt in which the server does not know the node yet, and one that succeeds.
abbrev unknown_try : Try
unknown_try = record {
  key = got operator;
  challenge = λ addr key. error (api_error 404 (codes "NODE_UNKNOWN") (codes "unknown"));
  register = λ key req. answer (codes "tok");
  write = write_works;
}

abbrev pub good_try : Try
good_try = record unknown_try { challenge = λ addr key. answer (codes "nonce") }

abbrev pub fixed : Settings
fixed = record {
  cfg = settings;
  host_id = codes "h";
  container_name = codes "node";
  version = codes "v1";
}

abbrev pub new_agent : Agent
new_agent = record { id = operator.identity; token = []; file = none; asked = [] }

good_try-IsGood : IsGood fixed good_try
good_try-IsGood = record {
  signer = operator;
  nonce = codes "nonce";
  token = codes "tok";
  opens = refl;
  challenged = refl;
  registered = refl;
  writes = refl;
}

ensure_enrolled-works_example :
    (ensure_enrolled fixed unknown_try (good_try ∷ []) new_agent).1 ≡ true
ensure_enrolled-works_example =
    ensure_enrolled-works fixed unknown_try (good_try ∷ []) new_agent (inr good_try-IsGood)

operator_addr-IsVisible : IsVisible operator.node_addr
operator_addr-IsVisible = record { graphic = ground arith; filled = omega arith }

tok-IsVisible : IsVisible (codes "tok")
tok-IsVisible = record { graphic = ground arith; filled = omega arith }

unknown_try-IsSound : IsSound operator.identity unknown_try
unknown_try-IsSound = record {
  same_key = λ signer e. let q : signer ≡ operator = cc in ap (λ (a : Account). a.node_addr) q;
  visible_tokens = λ key req token e.
      let q : codes "tok" ≡ token = cc in subst (λ (t : Text). IsVisible t) q tok-IsVisible;
  writes = refl;
}

good_try-IsSound : IsSound operator.identity good_try
good_try-IsSound = record {
  same_key = unknown_try-IsSound.same_key;
  visible_tokens = unknown_try-IsSound.visible_tokens;
  writes = refl;
}

nothing_stored : All IsGraphic (read_state none).1
unfolding read_state
nothing_stored = tt

ensure_enrolled-resumes_example :
    let b = (ensure_enrolled fixed unknown_try (good_try ∷ []) new_agent).0 in
    enroll fixed unknown_try (restarted b) ≡ (b, none)
ensure_enrolled-resumes_example =
    ensure_enrolled-resumes fixed operator.identity operator_addr-IsVisible unknown_try
      (good_try ∷ []) new_agent (unknown_try-IsSound, (good_try-IsSound, tt)) refl nothing_stored
      ensure_enrolled-works_example unknown_try

-- An agent whose token the server rejects.
abbrev rejected_agent : Agent
rejected_agent = record {
  id = operator.identity;
  token = codes "old";
  file = some (codes "sentnode1abc old");
  asked = [];
}

abbrev pub attempts : Attempts
attempts = record { removed = true; first = good_try; others = [] }

abbrev pub turns : List (Turn wrapped around fixed)
turns =
    heartbeat_turn
    ∷ settled_turn (failed (codes "locked")) attempts
    ∷ poll_turn (error (api_error 401 [] [])) attempts
    ∷ []

abbrev running : Running
running = record { agent = new_agent; node = paid_node; logged_latest = [] }

loop-StaysPaid_example :
    Paid
      (codes "01J")
      (codes "AB")
      (loop wrapped around fixed (answer (withdrawals, codes "v2")) attempts turns running).node.log
loop-StaysPaid_example =
    loop-StaysPaid wrapped around fixed (answer (withdrawals, codes "v2")) attempts turns running
      (codes "01J") (codes "AB") log-Paid

abbrev running_new : Running
running_new = record { agent = new_agent; node = node_with none; logged_latest = [] }

abbrev start_settings : Config
start_settings = record settings { rpc_addrs = codes "http://a:1" ∷ [] }

abbrev pub machine : Machine
machine = record {
  config_readable = true;
  home_writable = true;
  key = λ c. got operator;
  docker = λ c. none;
  state_file = none;
  host_id = codes "h";
}

-- The start, on a file without a stored token.
abbrev started_ready : Ready
started_ready = record {
  settings = record {
    cfg = record start_settings { withdraw_addr = [] };
    host_id = codes "h";
    container_name = [];
    version = codes "v1";
  };
  agent = record {
    id = operator.identity;
    token = codes "tok";
    file = some (codes "sentnode1abc tok");
    asked =
        register_req
          (record {
            cfg = record start_settings { withdraw_addr = [] };
            host_id = codes "h";
            container_name = [];
            version = codes "v1";
          })
          operator (codes "nonce")
        ∷ [];
  };
  signals = record {
    volume = true;
    config = true;
    keyring = true;
    backend = true;
    container = false;
    server = true;
  };
  container_id = [];
}

-- A burst of events, of which the last comes behind the turn of the loop.
abbrev burst : List Input
burst = message ∷ message ∷ received ∷ fired ∷ taken ∷ message ∷ []
