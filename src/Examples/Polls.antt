-- ===== src/Examples/Polls.antt =====
-- A concrete poll, its state file and its limits: internal/runner/runner.go.
use sentnodes_agent.Base.{ℕ, suc, true, List, [], ◌∷◌, ◌≡◌}
use sentnodes_agent.Base.Text.{Text, codes}
use sentnodes_agent.Runner.Poll.{Command, Handlers, run_batch}
use sentnodes_agent.Runner.Poll.Order.{OneRestart, run_batch-OneRestart}
use sentnodes_agent.Runner.Poll.Reports.{count_reports, count_commands, run_batch-reports}

-- A world that counts the restarts; every command succeeds.
abbrev counting : Handlers ℕ ℕ ℕ
counting = record {
  apply_config = λ c w. (w, (true, 0));
  execute = λ c w. (w, (true, c.payload));
  restart_node = λ w. (suc w, (true, 1));
}

abbrev named : Text → Text → Command ℕ
named id type = record { id = id; type = type; payload = 7 }

abbrev batch : List (Command ℕ)
batch =
    named (codes "a") (codes "price_update")
    ∷ named (codes "b") (codes "status")
    ∷ named (codes "c") (codes "restart")
    ∷ []

run_batch-reports_example :
    count_reports (codes "a") (run_batch counting batch 0).1 ≡ count_commands (codes "a") batch
run_batch-reports_example = run_batch-reports (codes "a") counting batch 0

run_batch-OneRestart_example : OneRestart (run_batch counting batch 0).1
run_batch-OneRestart_example = run_batch-OneRestart counting batch 0
