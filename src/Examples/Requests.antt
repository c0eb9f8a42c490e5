-- ===== src/Examples/Requests.antt =====
-- Concrete requests to the server and to the endpoints of the chain, and metrics:
-- internal/runner/runner.go, internal/api/client.go and internal/chain/chain.go.
use sentnodes_agent.Base.{
  ℕ, ◌+◌, ◌-◌, ◌/◌, ltb, ◌==◌, true, none, some, List, [], ◌∷◌, if◌then◌else◌, ◌≡◌, refl, arith,
}
use sentnodes_agent.Api.{Server, Request}
use sentnodes_agent.Api.Accepted.{Accepted}
use sentnodes_agent.Api.Paths.{ReportsOn}
use sentnodes_agent.Base.Got.{Got, got, failed}
use sentnodes_agent.Base.Int.{ℤ, pos, negsuc}
use sentnodes_agent.Base.Text.{Text, codes}
use sentnodes_agent.Chain.Client.{broadcast_tx}
use sentnodes_agent.Chain.Client.Urls.{Carries, broadcast_tx-Carries}
use sentnodes_agent.Examples.Client.{host, chain_with, two_endpoints}
use sentnodes_agent.Examples.Commands.{tenths}
use sentnodes_agent.Docker.Stats.{Quotients}
use sentnodes_agent.Metrics.{Sensors, Rounding}
use sentnodes_agent.Runner.Enroll.Wired.{Codecs}
use sentnodes_agent.Runner.Finish.{ResultReq, finish, finish-ReportsOn}
use sentnodes_agent.Runner.Measure.{Measured}
use sentnodes_agent.Runner.Poll.{Command}

broadcast_tx-Carries_example :
    Carries
      (chain_with [])
      two_endpoints
      (7 ∷ 255 ∷ [])
      (broadcast_tx (chain_with []) two_endpoints (7 ∷ 255 ∷ []))
broadcast_tx-Carries_example =
    broadcast_tx-Carries (chain_with []) two_endpoints (7 ∷ 255 ∷ []) (omega arith)

-- A server that answers every request with success and its URL.
abbrev kind_server : Server
kind_server = record {
  new_request = λ url. none;
  send = λ r. got (200, codes "ok");
  envelope = λ t. got (record { success = true; bytes = t; errors = none });
}

abbrev hostile : Command (List ℕ)
hostile = record { id = codes "../x?y"; type = codes "status"; payload = [] }

abbrev encode_flag : ResultReq (List ℕ) → Got Text
encode_flag r = got (if r.ok then codes "true" else codes "false")

finish-ReportsOn_example :
    ReportsOn kind_server
      (codes "https://s")
      (codes "t")
      (codes "../x?y")
      (codes "true")
      (finish kind_server (codes "https://s") (codes "t") encode_flag hostile (true, []))
finish-ReportsOn_example =
    finish-ReportsOn kind_server (codes "https://s") (codes "t") encode_flag hostile (true, [])
      (codes "true") (omega arith) refl

abbrev codecs : Codecs
codecs = record {
  marshal = λ req. got (codes "{}");
  challenge_data = λ t. got (record { nonce = codes "n"; ttl = pos 60 });
  register_data = λ t. got (record { agent_token = codes "tok"; agent_id = pos 1 });
}

abbrev accepted_by {ℓ} :
    {A : Type ℓ} (r : Request) (decode : Text → Got A) (a : A)
    → decode (codes "ok") ≡ got a
    → Accepted kind_server r decode a
accepted_by r decode a d = record {
  status = 200;
  body = codes "ok";
  env = record { success = true; bytes = codes "ok"; errors = none };
  made = refl;
  sent = refl;
  parsed = refl;
  succeeded = refl;
  filled = refl;
  decodes = d;
}

abbrev whole : Quotients tenths
whole = record {
  sub = λ (x y : ℕ). x - y;
  div = λ (x y : ℕ). x / y;
  gt_zero = λ (x : ℕ). ltb 0 x;
  is_zero = λ (x : ℕ). x == 0;
  zero = 0;
  hundred = 100;
}

abbrev nat_of : ℤ → ℕ
nat_of (pos n) = n
nat_of (negsuc n) = 0

abbrev to_nearest : Rounding tenths
to_nearest = record {
  add = λ (x y : ℕ). x + y;
  half = 0;
  to_int64 = λ (n : ℕ). pos n;
  of_int64 = nat_of;
}

abbrev sensors : Sensors ℕ
sensors = record {
  cpu_percent = got (7 ∷ []);
  cpu_info = got (codes "Xeon  E5" ∷ []);
  cpu_counts = got (pos 4);
  load_avg = failed (codes "no load");
  virtual_memory = got (some (10, 20));
  swap_memory = got none;
  disk_usage = failed (codes "no disk");
  io_counters = got ((1, 2) ∷ []);
  host_info = got (
      some (record {
        uptime = 9;
        platform = codes "debian";
        kernel_version = codes "6.1";
        host_id = codes "new";
      }));
}

abbrev measured : Measured
measured = record { host_id = codes "old"; container_id = codes "n1"; docker = some host }
