-- ===== src/Retention/Purge.antt =====
-- store/purge.go and retention/retention.go: the deletion of expired rows in batches, table by table.
-- A table is its rows in the order of their time column, and a row is that time: none is a row that
-- is never expired (an alert that is not resolved). `fails` tells whether the statement of a batch
-- fails, `ended` whether the context ends after it.
use health_beat.Prelude.{
  ℕ, zero, suc, ◌+◌, ◌-◌, ◌*◌, max, Bool, true, false, String, List, [], ◌∷◌, Option, none, some,
  Map, put, string_eq, ltb, if◌then◌else◌,
}

abbrev pub expired : ℕ → Option ℕ → Bool
expired cutoff none = false
expired cutoff (some at) = ltb at cutoff

abbrev pub one_more : ℕ × List (Option ℕ) → ℕ × List (Option ℕ)
one_more d = (suc d.0, d.1)

abbrev pub behind : Option ℕ → ℕ × List (Option ℕ) → ℕ × List (Option ℕ)
behind r d = (d.0, r ∷ d.1)

-- The DELETE of a batch: how many rows went, and the table.
unfoldable pub delete_oldest : ℕ → ℕ → List (Option ℕ) → ℕ × List (Option ℕ)
delete_oldest zero cutoff rows = (0, rows)
delete_oldest (suc n) cutoff [] = (0, [])
delete_oldest (suc n) cutoff (r ∷ rows) = elim (expired cutoff r) [
  | true ↦ one_more (delete_oldest n cutoff rows)
  | false ↦ behind r (delete_oldest (suc n) cutoff rows)
]

-- How a purge ends: by the fuel of the model, stopped by an error, or done; rows deleted, the table.
pub data Purged : Type 0 where
  out_of_fuel : Purged
  stopped done : ℕ → List (Option ℕ) → Purged

pub record Session : Type 0 where
  pub fails : ℕ → Bool
  pub ended : ℕ → Bool

-- The loop of `purgeInBatches`, at batch `i`.
unfoldable pub batches : ℕ → Session → ℕ → ℕ → ℕ → ℕ → List (Option ℕ) → Purged
unfolding delete_oldest
batches zero s size cutoff i total rows = out_of_fuel
batches (suc fuel) s size cutoff i total rows =
    let d = delete_oldest size cutoff rows in
    let rest = batches fuel s size cutoff (suc i) (total + d.0) d.1 in
    if s.fails i
    then stopped total rows
    else if ltb d.0 size
    then done (total + d.0) d.1
    else if s.ended i
    then stopped (total + d.0) d.1
    else rest

-- `purgeInBatches`
unfoldable pub purge_in_batches : ℕ → Session → ℕ → ℕ → List (Option ℕ) → Purged
unfolding batches
purge_in_batches fuel s cutoff size rows = batches fuel s (max size 1) cutoff 0 0 rows

abbrev pub day : ℕ
day = 24 * (3600 * 1_000_000_000)

abbrev pub batch_size : ℕ
batch_size = 10_000

-- A table with its retention; days are not negative (the settings are validated), 0 keeps all.
pub record Target : Type 0 where
  pub what : String
  pub days : ℕ
  pub session : Session
  pub rows : List (Option ℕ)

abbrev pub purged_target : ℕ → ℕ → Target → Purged
purged_target fuel now t = purge_in_batches fuel t.session (now - t.days * day) batch_size t.rows

abbrev pub deleted_of : Purged → ℕ
deleted_of out_of_fuel = 0
deleted_of (stopped n rows) = n
deleted_of (done n rows) = n

abbrev pub is_error : Purged → Bool
is_error out_of_fuel = false
is_error (stopped n rows) = true
is_error (done n rows) = false

abbrev pub or_error : Bool → String → Option String → Option String
or_error b what none = if b then some what else none
or_error b what (some first) = some first

-- The loop of `RunOnce`: how many rows of each table went, and the first table that failed.
unfoldable pub run_once :
    ℕ → ℕ → List Target → Map String ℕ → Option String → Map String ℕ × Option String
unfolding purge_in_batches put
run_once fuel now [] deleted first = (deleted, first)
run_once fuel now (t ∷ ts) deleted first =
    let p = purged_target fuel now t in
    let skipped = run_once fuel now ts deleted first in
    let rest =
      run_once fuel now ts (put t.what (deleted_of p) deleted)
        (or_error (is_error p) t.what first) in
    if ltb 0 t.days then rest else skipped
