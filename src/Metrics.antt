-- ===== src/Metrics.antt =====
-- internal/metrics/metrics.go, and wire.Metrics of internal/wire/wire.go. What package gopsutil
-- reads of the machine is an argument.
use sentnodes_agent.Base.{ℕ, Option, some, List, [], ◌∷◌, if◌then◌else◌}
use sentnodes_agent.Base.Got.{Got, got}
use sentnodes_agent.Base.Int.{ℤ, pos, is_positive}
use sentnodes_agent.Base.Text.{Text, codes, fields, join}
use sentnodes_agent.Docker.Stats.{Quotients}
use sentnodes_agent.Float.{Floats}

-- wire.Metrics
pub record Metrics (F : Type 0) : Type 0 where
  pub host_id : Text
  pub cpu_model : Text
  pub cpu_cores : ℤ
  pub cpu_pct : F
  pub load_avg1 : F
  pub mem_used : ℕ
  pub mem_total : ℕ
  pub swap_used : ℕ
  pub swap_total : ℕ
  pub disk_used : ℕ
  pub disk_total : ℕ
  pub net_rx_bytes : ℕ
  pub net_tx_bytes : ℕ
  pub node_cpu_pct : F
  pub node_mem_used : ℕ
  pub uptime_sec : ℕ
  pub os : Text
  pub kernel : Text

pub record HostInfo : Type 0 where
  pub uptime : ℕ
  pub platform : Text
  pub kernel_version : Text
  pub host_id : Text

-- The answers of cpu.Percent, cpu.Info (the names of the models), cpu.Counts, load.Avg (Load1),
-- mem.VirtualMemory, mem.SwapMemory and disk.Usage (used and total), net.IOCounters (received and
-- sent) and host.Info; `some` is a pointer that is not nil.
pub record Sensors (F : Type 0) : Type 0 where
  pub cpu_percent : Got (List F)
  pub cpu_info : Got (List Text)
  pub cpu_counts : Got ℤ
  pub load_avg : Got (Option F)
  pub virtual_memory : Got (Option (ℕ × ℕ))
  pub swap_memory : Got (Option (ℕ × ℕ))
  pub disk_usage : Got (Option (ℕ × ℕ))
  pub io_counters : Got (List (ℕ × ℕ))
  pub host_info : Got (Option HostInfo)

-- The float64 operations of `round2`, besides those of `Floats` and `Quotients`: x + y, the
-- constant 0.5, and the conversions to int64 and from it.
pub record Rounding (fl : Floats) : Type 0 where
  pub add : fl.Float → fl.Float → fl.Float
  pub half : fl.Float
  pub to_int64 : fl.Float → ℤ
  pub of_int64 : ℤ → fl.Float

-- A pair of numbers of a pointer, and of the first item of a list.
abbrev pair_or : Got (Option (ℕ × ℕ)) → ℕ × ℕ → ℕ × ℕ
pair_or (got (some p)) old = p
pair_or _ old = old

abbrev first_pair_or : Got (List (ℕ × ℕ)) → ℕ × ℕ → ℕ × ℕ
first_pair_or (got (p ∷ ps)) old = p
first_pair_or _ old = old

abbrev pub host_or : Got (Option HostInfo) → HostInfo → HostInfo
host_or (got (some hi)) old = hi
host_or _ old = old

-- The zero values that no host sets.
abbrev pub no_host : HostInfo
no_host = record { uptime = 0; platform = []; kernel_version = []; host_id = [] }

module _ (fl : Floats) (q : Quotients fl) (rd : Rounding fl) where
  -- `round2`
  unfoldable pub round2 : fl.Float → fl.Float
  round2 f = q.div (rd.of_int64 (rd.to_int64 (rd.add (fl.mul f q.hundred) rd.half))) q.hundred

  -- The first number of a list, rounded; a value that is not there leaves the old one.
  abbrev first_or : Got (List fl.Float) → fl.Float → fl.Float
  first_or (got (f ∷ fs)) old = round2 f
  first_or _ old = old

  abbrev model_or : Got (List Text) → Text → Text
  model_or (got (name ∷ names)) old = join (fields name) (codes " ")
  model_or _ old = old

  abbrev cores_or : Got ℤ → ℤ → ℤ
  cores_or (got n) old = if is_positive n then n else old
  cores_or _ old = old

  abbrev load_or : Got (Option fl.Float) → fl.Float → fl.Float
  load_or (got (some load)) old = round2 load
  load_or _ old = old

  -- `Collect`: each `if` sets its fields of a struct of zero values, and no two set the same field.
  unfoldable pub collect : Sensors fl.Float → Metrics fl.Float
  unfolding round2 fields join
  collect s =
      let memory = pair_or s.virtual_memory (0, 0) in
      let swap = pair_or s.swap_memory (0, 0) in
      let disk = pair_or s.disk_usage (0, 0) in
      let net = first_pair_or s.io_counters (0, 0) in
      let host = host_or s.host_info no_host in
      record {
        host_id = host.host_id;
        cpu_model = model_or s.cpu_info [];
        cpu_cores = cores_or s.cpu_counts (pos 0);
        cpu_pct = first_or s.cpu_percent q.zero;
        load_avg1 = load_or s.load_avg q.zero;
        mem_used = memory.0;
        mem_total = memory.1;
        swap_used = swap.0;
        swap_total = swap.1;
        disk_used = disk.0;
        disk_total = disk.1;
        net_rx_bytes = net.0;
        net_tx_bytes = net.1;
        node_cpu_pct = q.zero;
        node_mem_used = 0;
        uptime_sec = host.uptime;
        os = host.platform;
        kernel = host.kernel_version;
      }

-- `HostID`
unfoldable pub read_host_id : Got (Option HostInfo) → Text
read_host_id answer = (host_or answer no_host).host_id
