-- ===== src/Ingest/Sections.antt =====
-- model/ingest_v4.go: the sanitizers of the sections of a report, and of all of them (`sanitizeV4`).
use health_beat.Prelude.{Bool, true, false, ◌&&◌, Option, none, some, string_eq, if◌then◌else◌}
use health_beat.Prelude.Int.{ℤ, pos, ltb_ℤ}
use health_beat.Ingest.Types.{
  CpuDetail, MemoryDetail, PressureStall, Pressure, Tcp, Capacity, Processes,
}
use health_beat.Ingest.Ranges.{
  in_range, float_in, int_in, int64_non_neg, int_between, max_count, max_swap_mb, percent, zero_ℤ,
}
use health_beat.Ingest.Lists.{sanitize_process_groups}

abbrev pub is_none : {A : Type 0} → Option A → Bool
is_none none = true
is_none (some a) = false

-- A section of which nothing is left is nil.
abbrev pub unless : {A : Type 0} → Bool → A → Option A
unless empty x = if empty then none else some x

unfoldable pub clean_cpu_detail : CpuDetail → CpuDetail
unfolding float_in int_in
clean_cpu_detail c = record {
  io_wait_pct = float_in c.io_wait_pct zero_ℤ percent;
  steal_pct = float_in c.steal_pct zero_ℤ percent;
  procs_blocked = int_in c.procs_blocked zero_ℤ max_count;
}

abbrev pub cpu_detail_empty : CpuDetail → Bool
cpu_detail_empty c = is_none c.io_wait_pct && is_none c.steal_pct && is_none c.procs_blocked

-- `sanitizeCPUDetail`
unfoldable pub sanitize_cpu_detail : Option CpuDetail → Option CpuDetail
unfolding clean_cpu_detail
sanitize_cpu_detail none = none
sanitize_cpu_detail (some c) = unless (cpu_detail_empty (clean_cpu_detail c)) (clean_cpu_detail c)

abbrev pub at_most : Option ℤ → Option ℤ
at_most none = none
at_most (some x) = if ltb_ℤ max_swap_mb x then none else some x

-- `mb` of `sanitizeMemoryDetail`
unfoldable pub megabytes : Option ℤ → Option ℤ
unfolding int64_non_neg
megabytes o = at_most (int64_non_neg o)

abbrev pub max_swap_pages : ℤ
max_swap_pages = pos 1_000_000_000_000

unfoldable pub clean_memory_detail : MemoryDetail → MemoryDetail
unfolding megabytes float_in
clean_memory_detail m = record {
  available_mb = megabytes m.available_mb;
  cached_mb = megabytes m.cached_mb;
  swap_in_per_s = float_in m.swap_in_per_s zero_ℤ max_swap_pages;
  swap_out_per_s = float_in m.swap_out_per_s zero_ℤ max_swap_pages;
  oom_kills = m.oom_kills;
}

abbrev pub memory_detail_empty : MemoryDetail → Bool
memory_detail_empty m =
    is_none m.available_mb
    && is_none m.cached_mb
    && is_none m.swap_in_per_s
    && is_none m.swap_out_per_s
    && is_none m.oom_kills

-- `sanitizeMemoryDetail`
unfoldable pub sanitize_memory_detail : Option MemoryDetail → Option MemoryDetail
unfolding clean_memory_detail
sanitize_memory_detail none = none
sanitize_memory_detail (some m) =
    unless (memory_detail_empty (clean_memory_detail m)) (clean_memory_detail m)

-- `sanitizeStall`
unfoldable pub sanitize_stall : Option PressureStall → Option PressureStall
unfolding in_range float_in
sanitize_stall none = none
sanitize_stall (some p) =
    if in_range p.some_10 zero_ℤ percent && in_range p.some_60 zero_ℤ percent
    then some (record {
      some_10 = p.some_10;
      some_60 = p.some_60;
      full_10 = float_in p.full_10 zero_ℤ percent;
      full_60 = float_in p.full_60 zero_ℤ percent;
    })
    else none

abbrev pub pressure_empty : Pressure → Bool
pressure_empty p = is_none p.cpu && is_none p.memory && is_none p.io

unfoldable pub clean_pressure : Pressure → Pressure
unfolding sanitize_stall
clean_pressure p = record {
  cpu = sanitize_stall p.cpu;
  memory = sanitize_stall p.memory;
  io = sanitize_stall p.io;
}

-- `sanitizePressure`
unfoldable pub sanitize_pressure : Option Pressure → Option Pressure
unfolding clean_pressure
sanitize_pressure none = none
sanitize_pressure (some p) = unless (pressure_empty (clean_pressure p)) (clean_pressure p)

unfoldable pub clean_tcp : Tcp → Tcp
unfolding float_in int_in
clean_tcp t = record {
  retrans_pct = float_in t.retrans_pct zero_ℤ percent;
  established = int_in t.established zero_ℤ max_count;
  time_wait = int_in t.time_wait zero_ℤ max_count;
}

abbrev pub tcp_empty : Tcp → Bool
tcp_empty t = is_none t.retrans_pct && is_none t.established && is_none t.time_wait

-- `sanitizeTCP`
unfoldable pub sanitize_tcp : Option Tcp → Option Tcp
unfolding clean_tcp
sanitize_tcp none = none
sanitize_tcp (some t) = unless (tcp_empty (clean_tcp t)) (clean_tcp t)

unfoldable pub clean_capacity : Capacity → Capacity
unfolding int64_non_neg
clean_capacity c = record {
  file_handles = int64_non_neg c.file_handles;
  file_handles_max = int64_non_neg c.file_handles_max;
  conntrack = int64_non_neg c.conntrack;
  conntrack_max = int64_non_neg c.conntrack_max;
  tasks = int64_non_neg c.tasks;
  pid_max = int64_non_neg c.pid_max;
}

abbrev pub capacity_empty : Capacity → Bool
capacity_empty c =
    is_none c.file_handles
    && is_none c.file_handles_max
    && is_none c.conntrack
    && is_none c.conntrack_max
    && is_none c.tasks
    && is_none c.pid_max

-- `sanitizeCapacity`
unfoldable pub sanitize_capacity : Option Capacity → Option Capacity
unfolding clean_capacity
sanitize_capacity none = none
sanitize_capacity (some c) = unless (capacity_empty (clean_capacity c)) (clean_capacity c)

-- `sanitizeProcesses`
unfoldable pub sanitize_processes : Option Processes → Option Processes
unfolding sanitize_process_groups
sanitize_processes none = none
sanitize_processes (some p) =
    if int_between p.total zero_ℤ max_count && int_between p.zombie zero_ℤ max_count
    then some (record {
      total = p.total;
      zombie = p.zombie;
      top_cpu = sanitize_process_groups p.top_cpu;
      top_ram = sanitize_process_groups p.top_ram;
    })
    else none
