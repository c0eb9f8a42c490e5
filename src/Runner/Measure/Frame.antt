-- ===== src/Runner/Measure/Frame.antt =====
-- What `sendMetrics` puts into the metrics of the machine.
use sentnodes_agent.Base.{false, true, some, ◌≡◌, ◌⊎◌}
use sentnodes_agent.Base.Text.{is_empty}
use sentnodes_agent.Docker.{Engine, Called, answered, panics}
use sentnodes_agent.Docker.Stats.{Quotients}
use sentnodes_agent.Float.{Floats}
use sentnodes_agent.Metrics.{Metrics, Sensors, Rounding, collect}
use sentnodes_agent.Runner.Measure.{Measured}

module _ (fl : Floats) (q : Quotients fl) (rd : Rounding fl) (r : Measured)
    (s : Sensors fl.Float) where
  -- The host id of the start, the node's figures, and for the rest what `Collect` gives.
  pub record IsMeasured (m : Metrics fl.Float) : Type 0 where
    pub host : m.host_id ≡ r.host_id
    pub rest :
        record m { host_id = (collect fl q rd s).host_id; node_cpu_pct = q.zero; node_mem_used = 0 }
        ≡ collect fl q rd s
    pub outside : is_empty r.container_id ≡ true → m.node_mem_used ≡ 0

  -- The docker client is there, and so is a container.
  abbrev pub HasContainer : Type 0
  HasContainer = (engine : Engine) × (r.docker ≡ some engine) × (is_empty r.container_id ≡ false)

  abbrev pub Measures : Called (Metrics fl.Float) → Type 0
  Measures c =
      ((m : Metrics fl.Float) × (c ≡ answered m) × IsMeasured m) ⊎ ((c ≡ panics) × HasContainer)

  abbrev base : Metrics fl.Float
  base = record (collect fl q rd s) { host_id = r.host_id }
