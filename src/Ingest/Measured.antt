-- ===== src/Ingest/Measured.antt =====
-- model/ingest_v4.go: what the sanitized figures of processor, memory, pressure, connections, tables
-- and processes keep to.
use health_beat.Prelude.{
  Bool, true, false, ◌&&◌, Option, none, some, string_eq, if◌then◌else◌, ◌≡◌, refl, arith,
}
use health_beat.Prelude.Int.{ℤ, ltb_ℤ}
use health_beat.Ingest.Types.{
  CpuDetail, MemoryDetail, PressureStall, Pressure, Tcp, Capacity, Processes,
}
use health_beat.Ingest.Ranges.{
  in_range, float_in, int64_non_neg, int_between, Amid, int_between-Amid, Inside, in_range-Inside,
  InRange, float_in-InRange, Between, int_in-Between, NonNegative, int64_non_neg-NonNegative,
  max_count, max_swap_mb, percent, zero_ℤ,
}
use health_beat.Ingest.Sections.{
  unless, clean_cpu_detail, cpu_detail_empty, sanitize_cpu_detail, at_most, megabytes,
  clean_memory_detail, memory_detail_empty, sanitize_memory_detail, sanitize_stall, clean_pressure,
  pressure_empty, sanitize_pressure, clean_tcp, tcp_empty, sanitize_tcp, clean_capacity,
  capacity_empty, sanitize_capacity, sanitize_processes, max_swap_pages,
}
use health_beat.Ingest.Lists.{sanitize_process_groups}
use health_beat.Ingest.Storable.{Each, GroupOk, sanitize_process_groups-Each}

abbrev pub Holds : {A : Type 0} → (A → Type 0) → Option A → Type 0
Holds P none = Unit
Holds P (some x) = P x

pub unless-Holds : {A : Type 0} (P : A → Type 0) (b : Bool) (x : A) → P x → Holds P (unless b x)
unless-Holds P true x h = tt
unless-Holds P false x h = h

-- Percentages and counts of the processor, of memory and of connections.
abbrev pub CpuOk : CpuDetail → Type 0
CpuOk c =
    InRange zero_ℤ percent c.io_wait_pct
    × (InRange zero_ℤ percent c.steal_pct × Between zero_ℤ max_count c.procs_blocked)

pub cpu-Holds : (o : Option CpuDetail) → Holds CpuOk (sanitize_cpu_detail o)
unfolding sanitize_cpu_detail clean_cpu_detail
cpu-Holds none = tt
cpu-Holds (some c) =
    unless-Holds CpuOk (cpu_detail_empty (clean_cpu_detail c)) (clean_cpu_detail c) (
      float_in-InRange c.io_wait_pct zero_ℤ percent,
      (
        float_in-InRange c.steal_pct zero_ℤ percent,
        int_in-Between c.procs_blocked zero_ℤ max_count,
      ),
    )

pub at_most-Between : (o : Option ℤ) → NonNegative o → Between zero_ℤ max_swap_mb (at_most o)
at_most-Between none h = tt
at_most-Between (some x) h = by_size (ltb_ℤ max_swap_mb x) refl
  where
    by_size :
        (b : Bool)
        → ltb_ℤ max_swap_mb x ≡ b
        → Between zero_ℤ max_swap_mb (if b then none else some x)
    by_size true e = tt
    by_size false e = (ground (arith, h), ground (arith, e))

pub megabytes-Between : (o : Option ℤ) → Between zero_ℤ max_swap_mb (megabytes o)
unfolding megabytes
megabytes-Between o = at_most-Between (int64_non_neg o) (int64_non_neg-NonNegative o)

abbrev pub MemoryOk : MemoryDetail → Type 0
MemoryOk m =
    (Between zero_ℤ max_swap_mb m.available_mb × Between zero_ℤ max_swap_mb m.cached_mb)
    × (InRange zero_ℤ max_swap_pages m.swap_in_per_s
        × InRange zero_ℤ max_swap_pages m.swap_out_per_s)

pub memory-Holds : (o : Option MemoryDetail) → Holds MemoryOk (sanitize_memory_detail o)
unfolding sanitize_memory_detail clean_memory_detail
memory-Holds none = tt
memory-Holds (some m) =
    unless-Holds MemoryOk (memory_detail_empty (clean_memory_detail m)) (clean_memory_detail m) (
      (megabytes-Between m.available_mb, megabytes-Between m.cached_mb),
      (
        float_in-InRange m.swap_in_per_s zero_ℤ max_swap_pages,
        float_in-InRange m.swap_out_per_s zero_ℤ max_swap_pages,
      ),
    )

abbrev pub StallOk : PressureStall → Type 0
StallOk p =
    (Inside zero_ℤ percent p.some_10 × Inside zero_ℤ percent p.some_60)
    × (InRange zero_ℤ percent p.full_10 × InRange zero_ℤ percent p.full_60)

pub stall-Holds : (o : Option PressureStall) → Holds StallOk (sanitize_stall o)
unfolding sanitize_stall
stall-Holds none = tt
stall-Holds (some p) =
    by_test (in_range p.some_10 zero_ℤ percent && in_range p.some_60 zero_ℤ percent) refl
  where
    by_test :
        (b : Bool)
        → (in_range p.some_10 zero_ℤ percent && in_range p.some_60 zero_ℤ percent) ≡ b
        → Holds StallOk (
            if b
            then some (record {
              some_10 = p.some_10;
              some_60 = p.some_60;
              full_10 = float_in p.full_10 zero_ℤ percent;
              full_60 = float_in p.full_60 zero_ℤ percent;
            })
            else none)
    by_test true e = (
      (
        in_range-Inside p.some_10 zero_ℤ percent (ground (arith, e)),
        in_range-Inside p.some_60 zero_ℤ percent (ground (arith, e)),
      ),
      (float_in-InRange p.full_10 zero_ℤ percent, float_in-InRange p.full_60 zero_ℤ percent),
    )
    by_test false e = tt

abbrev pub PressureOk : Pressure → Type 0
PressureOk p = Holds StallOk p.cpu × (Holds StallOk p.memory × Holds StallOk p.io)

pub pressure-Holds : (o : Option Pressure) → Holds PressureOk (sanitize_pressure o)
unfolding sanitize_pressure clean_pressure
pressure-Holds none = tt
pressure-Holds (some p) =
    unless-Holds PressureOk (pressure_empty (clean_pressure p)) (clean_pressure p)
      (stall-Holds p.cpu, (stall-Holds p.memory, stall-Holds p.io))

abbrev pub TcpOk : Tcp → Type 0
TcpOk t =
    InRange zero_ℤ percent t.retrans_pct
    × (Between zero_ℤ max_count t.established × Between zero_ℤ max_count t.time_wait)

pub tcp-Holds : (o : Option Tcp) → Holds TcpOk (sanitize_tcp o)
unfolding sanitize_tcp clean_tcp
tcp-Holds none = tt
tcp-Holds (some t) = unless-Holds TcpOk (tcp_empty (clean_tcp t)) (clean_tcp t) (
  float_in-InRange t.retrans_pct zero_ℤ percent,
  (int_in-Between t.established zero_ℤ max_count, int_in-Between t.time_wait zero_ℤ max_count),
)

abbrev pub CapacityOk : Capacity → Type 0
CapacityOk c =
    (NonNegative c.file_handles × (NonNegative c.file_handles_max × NonNegative c.conntrack))
    × (NonNegative c.conntrack_max × (NonNegative c.tasks × NonNegative c.pid_max))

pub capacity-Holds : (o : Option Capacity) → Holds CapacityOk (sanitize_capacity o)
unfolding sanitize_capacity clean_capacity
capacity-Holds none = tt
capacity-Holds (some c) =
    unless-Holds CapacityOk (capacity_empty (clean_capacity c)) (clean_capacity c) (
      (
        int64_non_neg-NonNegative c.file_handles,
        (int64_non_neg-NonNegative c.file_handles_max, int64_non_neg-NonNegative c.conntrack),
      ),
      (
        int64_non_neg-NonNegative c.conntrack_max,
        (int64_non_neg-NonNegative c.tasks, int64_non_neg-NonNegative c.pid_max),
      ),
    )

abbrev pub ProcessesOk : Processes → Type 0
ProcessesOk p =
    (Amid zero_ℤ max_count p.total × Amid zero_ℤ max_count p.zombie)
    × (Each GroupOk 20 p.top_cpu × Each GroupOk 20 p.top_ram)

pub processes-Holds : (o : Option Processes) → Holds ProcessesOk (sanitize_processes o)
unfolding sanitize_processes
processes-Holds none = tt
processes-Holds (some p) =
    by_test (int_between p.total zero_ℤ max_count && int_between p.zombie zero_ℤ max_count) refl
  where
    by_test :
        (b : Bool)
        → (int_between p.total zero_ℤ max_count && int_between p.zombie zero_ℤ max_count) ≡ b
        → Holds ProcessesOk (
            if b
            then some (record {
              total = p.total;
              zombie = p.zombie;
              top_cpu = sanitize_process_groups p.top_cpu;
              top_ram = sanitize_process_groups p.top_ram;
            })
            else none)
    by_test true e = (
      (
        int_between-Amid p.total zero_ℤ max_count (ground (arith, e)),
        int_between-Amid p.zombie zero_ℤ max_count (ground (arith, e)),
      ),
      (sanitize_process_groups-Each p.top_cpu, sanitize_process_groups-Each p.top_ram),
    )
    by_test false e = tt
