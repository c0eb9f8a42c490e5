-- ===== src/Float.antt =====
-- The float64 values that internal/config/config.go and internal/exec/exec.go compute with: their
-- type and the operations that the code calls.
use sentnodes_agent.Base.{ℕ, Bool}
use sentnodes_agent.Base.Text.{Text}

pub record Floats : Type 1 where
  pub Float : Type 0
  -- strconv.ParseFloat: the value, and whether there was no error
  pub parse_float : Text → Float × Bool
  pub of_uint64 : ℕ → Float
  -- the conversion to uint64, and that of math.Ceil's result
  pub to_uint64 : Float → ℕ
  pub ceil : Float → Float
  pub mul : Float → Float → Float
  -- x <= 0 and x >= 0
  pub le_zero : Float → Bool
  pub ge_zero : Float → Bool
  -- the constant 0.1
  pub tenth : Float
