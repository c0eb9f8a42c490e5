-- ===== src/Runner/Measure.antt =====
-- `sendMetrics` of internal/runner/runner.go.
pub mod Frame
use sentnodes_agent.Base.{ℕ, Option, none, some, if◌then◌else◌}
use sentnodes_agent.Api.{Server, ApiResult, send_metrics}
use sentnodes_agent.Base.Got.{Got}
use sentnodes_agent.Base.Text.{Text, is_empty}
use sentnodes_agent.Docker.{Engine, Called, answered, refused, panics}
use sentnodes_agent.Docker.Stats.{Quotients, stats}
use sentnodes_agent.Float.{Floats}
use sentnodes_agent.Metrics.{Metrics, Sensors, Rounding, collect, round2}

-- What the runner knows: the host id of its start, the container, and the docker client, if there
-- is one.
pub record Measured : Type 0 where
  pub host_id : Text
  pub container_id : Text
  pub docker : Option Engine

module _ (fl : Floats) (q : Quotients fl) (rd : Rounding fl) where
  abbrev with_stats : Metrics fl.Float → Called (fl.Float × ℕ) → Called (Metrics fl.Float)
  with_stats m (answered (cpu, mem)) =
      answered (record m { node_cpu_pct = round2 fl q rd cpu; node_mem_used = mem })
  with_stats m (refused e) = refused e
  with_stats m panics = panics

  abbrev with_docker :
      Metrics fl.Float → (container_id : Text) → Option Engine → Called (Metrics fl.Float)
  with_docker m container_id none = answered m
  with_docker m container_id (some engine) =
      if is_empty container_id then answered m else with_stats m (stats fl q engine container_id)

  -- The metrics that `sendMetrics` sends; `Stats` never refuses.
  unfoldable pub metrics_of : Measured → Sensors fl.Float → Called (Metrics fl.Float)
  unfolding collect stats round2
  metrics_of r s =
      with_docker (record (collect fl q rd s) { host_id = r.host_id }) r.container_id r.docker

  -- `sendMetrics`, with json.Marshal of wire.MetricsReq; the error is only logged.
  abbrev pub post_metrics :
      Server
      → (base token : Text) → (marshal : Metrics fl.Float → Got Text) → Called (Metrics fl.Float)
      → Called (ApiResult (Unit {0}))
  post_metrics server base token marshal (answered m) =
      answered (send_metrics server base token (marshal m))
  post_metrics server base token marshal (refused e) = refused e
  post_metrics server base token marshal panics = panics

  unfoldable pub measure :
      Server
      → (base token : Text) → (marshal : Metrics fl.Float → Got Text) → Measured
      → Sensors fl.Float
      → Called (ApiResult (Unit {0}))
  unfolding metrics_of send_metrics
  measure server base token marshal r s = post_metrics server base token marshal (metrics_of r s)
