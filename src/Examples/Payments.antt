-- ===== src/Examples/Payments.antt =====
-- A withdrawal that is paid once over a run of the loop: internal/exec/exec.go and
-- internal/runner/runner.go.
use sentnodes_agent.Base.{false, none, []}
use sentnodes_agent.Base.Text.{codes}
use sentnodes_agent.Examples.Commands.{answers, settings}
use sentnodes_agent.Examples.Enrollment.{new_agent}
use sentnodes_agent.Examples.Handlers.{wrapped, node_with}
use sentnodes_agent.Exec.Withdraw.{withdraw}
use sentnodes_agent.Runner.Loop.{Running}

abbrev payer : Running
payer = record {
  agent = new_agent;
  node = node_with (withdraw wrapped settings answers 300_000_000 false (codes "01J") none).log;
  logged_latest = [];
}
