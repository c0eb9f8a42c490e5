-- ===== src/Docker/Stats.antt =====
-- `Stats` of internal/dockerx/dockerx.go.
use sentnodes_agent.Base.{ℕ, ◌-◌, Bool, ◌&&◌, Option, none, some, ◌++◌, leb, if◌then◌else◌}
use sentnodes_agent.Base.Escape.{path_escape}
use sentnodes_agent.Base.Text.{Text, codes}
use sentnodes_agent.Docker.{
  CpuStats, StatsJson, Engine, Called, answered, refused, panics, get_json,
}
use sentnodes_agent.Float.{Floats}

-- The float64 operations of the percentage, besides those of `Floats`: x - y, x / y, x > 0, x ==
-- 0, 0 and 100.
pub record Quotients (fl : Floats) : Type 0 where
  pub sub : fl.Float → fl.Float → fl.Float
  pub div : fl.Float → fl.Float → fl.Float
  pub gt_zero : fl.Float → Bool
  pub is_zero : fl.Float → Bool
  pub zero : fl.Float
  pub hundred : fl.Float

-- The memory that is used, without the cache.
abbrev pub mem_used : (usage : ℕ) → (cache : Option ℕ) → ℕ
mem_used usage none = usage
mem_used usage (some v) = if leb v usage then usage - v else usage

module _ (fl : Floats) (q : Quotients fl) where
  abbrev cpus_of : CpuStats → fl.Float
  cpus_of cpu =
      let online = fl.of_uint64 cpu.online_cpus in
      if q.is_zero online then fl.of_uint64 cpu.percpu else online

  unfoldable pub cpu_percent : StatsJson → fl.Float
  cpu_percent s =
      let cpu_delta = q.sub (fl.of_uint64 s.cpu.total_usage) (fl.of_uint64 s.precpu.total_usage) in
      let sys_delta =
        q.sub (fl.of_uint64 s.cpu.system_usage) (fl.of_uint64 s.precpu.system_usage) in
      let cpus = cpus_of s.cpu in
      if q.gt_zero sys_delta && q.gt_zero cpu_delta && q.gt_zero cpus
      then fl.mul (fl.mul (q.div cpu_delta sys_delta) cpus) q.hundred
      else q.zero

  abbrev pub stats_of : Called StatsJson → Called (fl.Float × ℕ)
  stats_of (answered s) = answered (cpu_percent s, mem_used s.usage s.cache)
  stats_of (refused e) = answered (q.zero, 0)
  stats_of panics = panics

  -- `Stats`
  unfoldable pub stats : Engine → (id : Text) → Called (fl.Float × ℕ)
  unfolding get_json path_escape cpu_percent
  stats engine id = stats_of (
      get_json engine
        (codes "/containers/" ++ (path_escape id ++ codes "/stats?stream=false&one-shot=true"))
        engine.stats_json)
