-- ===== src/Examples/Handlers.antt =====
-- A concrete poll over the handlers of internal/runner/runner.go.
use sentnodes_agent.Base.{ℕ, ◌%◌, ◌^◌, Option, none, some, List, [], ◌∷◌, ◌≡◌, refl, arith}
use sentnodes_agent.Base.Got.{failed}
use sentnodes_agent.Base.Text.{Text, codes, fields}
use sentnodes_agent.Examples.Commands.{tenths, answers, settings}
use sentnodes_agent.Exec.Edit.{TomlLibrary}
use sentnodes_agent.Exec.Withdraw.{lookup_lines, compute_fee}
use sentnodes_agent.Exec.Withdraw.Log.{unlines}
use sentnodes_agent.Exec.Withdraw.Paid.{Paid}
use sentnodes_agent.Float.{Floats}
use sentnodes_agent.Runner.Handlers.{number, Payload, Node, Surroundings}
use sentnodes_agent.Runner.Handlers.Safe.{AreAllU64}
use sentnodes_agent.Runner.Poll.{Command}

-- Numbers that wrap at 64 bits where they become uint64s.
abbrev pub wrapped : Floats
wrapped = record tenths { to_uint64 = λ (x : ℕ). x % 2 ^ 64 }

abbrev pub no_library : TomlLibrary
no_library = record {
  unmarshal = λ s. failed [];
  marshal = λ m. failed [];
  osmosis_addr = λ s. failed [];
}

abbrev pub around : Surroundings wrapped
around = record {
  cfg = settings;
  id = record {
    pub_compressed = 2 ∷ [];
    operator_addr = codes "sent1a";
    node_addr = codes "sentnode1a";
  };
  container_id = codes "c";
  lib = no_library;
  faults = λ n. record { peek = none; read = none; write = none; rename = none };
  answers = λ n. answers;
  restart_error = λ n. none;
}

abbrev pub node_with : Option Text → Node
node_with log = record {
  files = record { config = codes "old"; temp = none };
  log = log;
  sent = [];
  restarts = 0;
  calls = 0;
}

abbrev pub withdrawals : List (Command (Payload ℕ))
withdrawals =
    record {
      id = codes "01J";
      type = codes "withdraw";
      payload = (codes "amount", number 300_000_000) ∷ [];
    }
    ∷ record { id = codes "01J"; type = codes "price_update"; payload = [] }
    ∷ []

pub around-AreAllU64 : AreAllU64 wrapped around
unfolding compute_fee
around-AreAllU64 = record {
  bal_fits = λ n bal e. ground arith;
  fee_fits = omega arith;
  reserve_fits = omega arith;
  number_fits = λ (x : ℕ). omega arith;
}

-- The log of a node that has paid the withdrawal.
abbrev paid_line : Text
paid_line = codes "01J AB"

paid_lookup : lookup_lines (paid_line ∷ []) (codes "01J") ≡ codes "AB"
unfolding lookup_lines fields
paid_lookup = refl

pub log-Paid : Paid (codes "01J") (codes "AB") (some (unlines (paid_line ∷ [])))
log-Paid = record {
  lines = paid_line ∷ [];
  rest = [];
  was = refl;
  are_lines = (
    (
      ground arith,
      (ground arith, (ground arith, (ground arith, (ground arith, (ground arith, tt))))),
    ),
    tt,
  );
  found = paid_lookup;
  filled = refl;
}

abbrev pub paid_node : Node
paid_node = node_with (some (unlines (paid_line ∷ [])))
