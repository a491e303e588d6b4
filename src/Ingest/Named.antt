-- ===== src/Ingest/Named.antt =====
-- model/ingest_v4.go: what the sanitized lists of disks, interfaces, sensors and arrays keep to.
use health_beat.Prelude.{
  ℕ, ◌≤◌, Bool, true, false, List, [], none, some, some-injective, length, string_eq, if◌then◌else◌,
  ◌≡◌, refl, subst, arith,
}
use health_beat.Ingest.Text.{is_empty, Clean, clean_text-Clean}
use health_beat.Ingest.Types.{DiskIo, NetIo, Temperature, Raid}
use health_beat.Ingest.Entries.{Rules, Stored, sanitize_list-Stored}
use health_beat.Ingest.Ranges.{
  in_range, Amid, int_between-Amid, Inside, in_range-Inside, max_iops, max_rate, max_millis,
  max_count, one_of, InRange, float_in-InRange, max_v4_entries, min_celsius, max_celsius, percent,
  zero_ℤ,
}
use health_beat.Ingest.Lists.{
  disk_io_ok, disk_io_rules, sanitize_disk_io, net_io_ok, net_io_rules, sanitize_net_io,
  temperature_kinds, clean_temperature, temperature_rules, sanitize_temperatures, clean_raid,
  raid_ok, raid_rules, sanitize_raid, max_state_text, max_raid_devices,
}

-- At most `n` entries, with different names that are not empty, and each with the property.
abbrev pub Listed : {A : Type 0} → Rules A → (A → Type 0) → ℕ → List A → Type 0
Listed rules P n xs = (length xs ≤ n) × Stored rules P [] xs

-- A text that is there where the test fails.
pub tested :
    {A : Type 0} (b : Bool) (x y : A)
    → (if b then none else some x) ≡ some y
    → (b ≡ false) × (x ≡ y)
tested true x y h = let absurd : ⊥ = ground (arith, h) in elim absurd [ ]
tested false x y h = (refl, some-injective _ _ h)

pub passed :
    {A : Type 0} (b : Bool) (x y : A) → (if b then some x else none) ≡ some y → (b ≡ true) × (x ≡ y)
passed true x y h = (refl, some-injective _ _ h)
passed false x y h = let absurd : ⊥ = ground (arith, h) in elim absurd [ ]

abbrev pub DiskIoOk : DiskIo → Type 0
DiskIoOk d =
    (Inside zero_ℤ max_iops d.read_iops × Inside zero_ℤ max_iops d.write_iops)
    × ((Inside zero_ℤ max_rate d.read_bps × Inside zero_ℤ max_rate d.write_bps)
        × (Inside zero_ℤ percent d.util_pct
            × (Inside zero_ℤ max_millis d.await_ms × Inside zero_ℤ max_count d.queue_depth)))

disk-ok : (d : DiskIo) → disk_io_ok d ≡ true → DiskIoOk d
unfolding disk_io_ok
disk-ok d h = (
  (
    in_range-Inside d.read_iops zero_ℤ max_iops (ground (arith, h)),
    in_range-Inside d.write_iops zero_ℤ max_iops (ground (arith, h)),
  ),
  (
    (
      in_range-Inside d.read_bps zero_ℤ max_rate (ground (arith, h)),
      in_range-Inside d.write_bps zero_ℤ max_rate (ground (arith, h)),
    ),
    (
      in_range-Inside d.util_pct zero_ℤ percent (ground (arith, h)),
      (
        in_range-Inside d.await_ms zero_ℤ max_millis (ground (arith, h)),
        in_range-Inside d.queue_depth zero_ℤ max_count (ground (arith, h)),
      ),
    ),
  ),
)

pub sanitize_disk_io-Listed :
    (ds : List DiskIo) → Listed disk_io_rules DiskIoOk max_v4_entries (sanitize_disk_io ds)
unfolding sanitize_disk_io disk_io_ok
sanitize_disk_io-Listed ds =
    sanitize_list-Stored disk_io_rules DiskIoOk
      (record {
        renamed = λ n d. refl;
        admitted =
            λ n x y h. let p = passed (disk_io_ok x) x y h in subst DiskIoOk p.1 (disk-ok x p.0);
      })
      max_v4_entries [] ds

abbrev pub NetIoOk : NetIo → Type 0
NetIoOk n = Inside zero_ℤ max_rate n.rx_bps × Inside zero_ℤ max_rate n.tx_bps

net-ok : (n : NetIo) → net_io_ok n ≡ true → NetIoOk n
unfolding net_io_ok
net-ok n h = (
  in_range-Inside n.rx_bps zero_ℤ max_rate (ground (arith, h)),
  in_range-Inside n.tx_bps zero_ℤ max_rate (ground (arith, h)),
)

pub sanitize_net_io-Listed :
    (ns : List NetIo) → Listed net_io_rules NetIoOk max_v4_entries (sanitize_net_io ns)
unfolding sanitize_net_io net_io_ok
sanitize_net_io-Listed ns =
    sanitize_list-Stored net_io_rules NetIoOk
      (record {
        renamed = λ m n. refl;
        admitted =
            λ n x y h. let p = passed (net_io_ok x) x y h in subst NetIoOk p.1 (net-ok x p.0);
      })
      max_v4_entries [] ns

abbrev pub TemperatureOk : Temperature → Type 0
TemperatureOk t =
    Inside min_celsius max_celsius t.celsius
    × (InRange min_celsius max_celsius t.max
        × (InRange min_celsius max_celsius t.crit × (one_of temperature_kinds t.kind ≡ true)))

pub clean_temperature-ok :
    (t : Temperature)
    → in_range t.celsius min_celsius max_celsius ≡ true
    → TemperatureOk (clean_temperature t)
unfolding clean_temperature
clean_temperature-ok t h = (
  in_range-Inside t.celsius min_celsius max_celsius h,
  (
    float_in-InRange t.max min_celsius max_celsius,
    (float_in-InRange t.crit min_celsius max_celsius, known (one_of temperature_kinds t.kind) refl),
  ),
)
  where
    known :
        (b : Bool)
        → one_of temperature_kinds t.kind ≡ b
        → one_of temperature_kinds (if b then t.kind else "other") ≡ true
    known true e = e
    known false e = refl

pub sanitize_temperatures-Listed :
    (ts : List Temperature)
    → Listed temperature_rules TemperatureOk max_v4_entries (sanitize_temperatures ts)
unfolding sanitize_temperatures
sanitize_temperatures-Listed ts =
    sanitize_list-Stored temperature_rules TemperatureOk
      (record {
        renamed = λ n t. refl;
        admitted = λ n x y h.
            let p = passed (in_range x.celsius min_celsius max_celsius) (clean_temperature x) y h in
            subst TemperatureOk p.1 (clean_temperature-ok x p.0);
      })
      max_v4_entries [] ts

abbrev pub RaidOk : Raid → Type 0
RaidOk a =
    (Clean max_state_text a.level × Clean max_state_text a.state)
    × ((is_empty a.state ≡ false)
        × (Amid zero_ℤ max_raid_devices a.devices
            × (Amid zero_ℤ max_raid_devices a.active × InRange zero_ℤ percent a.sync_pct)))

pub clean_raid-ok : (a : Raid) → raid_ok a ≡ true → RaidOk (clean_raid a)
unfolding clean_raid raid_ok
clean_raid-ok a h = (
  (clean_text-Clean a.level max_state_text, clean_text-Clean a.state max_state_text),
  (
    ground (arith, h),
    (
      int_between-Amid a.devices zero_ℤ max_raid_devices (ground (arith, h)),
      (
        int_between-Amid a.active zero_ℤ max_raid_devices (ground (arith, h)),
        float_in-InRange a.sync_pct zero_ℤ percent,
      ),
    ),
  ),
)

pub sanitize_raid-Listed :
    (rs : List Raid) → Listed raid_rules RaidOk max_v4_entries (sanitize_raid rs)
unfolding sanitize_raid
sanitize_raid-Listed rs =
    sanitize_list-Stored raid_rules RaidOk
      (record {
        renamed = λ n t. refl;
        admitted = λ n x y h.
            let p = passed (raid_ok x) (clean_raid x) y h in subst RaidOk p.1 (clean_raid-ok x p.0);
      })
      max_v4_entries [] rs
