-- ===== src/Alert/World.antt =====
-- What the engine runs in: the database, the clock, which calls of the database fail, and what
-- other sessions commit between two calls of the engine. Transactions and savepoints follow
-- store/tx.go and alertengine/stores.go (`InTx`, `Savepoint`).

use health_beat.Prelude.{ℕ, ◌+◌, Bool, false, Option, List, [], ◌∷◌, if◌then◌else◌}
use health_beat.Alert.Types.{Level, AlertKey}
use health_beat.Alert.Table.{
  Result, ok, not_found, failed, Db, Statement, create_if_none_active, update_level, resolve,
  acknowledge, set_notify_pending, purge_resolved_before, delete_host,
}

-- A statement that another session commits on the alerts: a panel user, another evaluation, another
-- server, a batch of the retention of resolved alerts, and the deletion of a host.
pub data Act : Type 0 where
  creates : ℕ → AlertKey → Level → Act
  relevels : ℕ → Level → Bool → Act
  resolves : ℕ → Act
  acknowledges : ℕ → ℕ → Act
  marks : ℕ → Bool → Act
  purges : ℕ → ℕ → Act
  deletes_host : ℕ → Act

unfoldable pub act : Act → ℕ → Db → Db
act (creates host key level) now db =
    (create_if_none_active host key level Option.none Option.none now db).1
act (relevels id level reopen) now db =
    (update_level id level Option.none Option.none reopen now db).1
act (resolves id) now db = (resolve id Option.none Option.none now db).1
act (acknowledges id by) now db = (acknowledge id by now db).1
act (marks id mark) now db = (set_notify_pending id mark now db).1
act (purges cutoff size) now db = purge_resolved_before cutoff size db
act (deletes_host host) now db = delete_host host db

unfoldable pub act_all : List Act → ℕ → Db → Db
unfolding act
act_all [] now db = db
act_all (a ∷ acts) now db = act_all acts now (act a now db)

-- What happens before a call of the engine: time passes, and others commit.
pub record Turn : Type 0 where
  pub elapsed : ℕ
  pub acts : List Act

-- `faults` tells for each coming call of the database whether it fails (none is left: it does
-- not). `woken` counts the calls of the worker's Wake.
pub record World : Type 0 where
  pub db : Db
  pub clock : ℕ
  pub turns : List Turn
  pub faults : List Bool
  pub woken : ℕ

abbrev pub M : Type 0 → Type 0
M A = World → A × World

infixl 10 ◌>>=◌ ◌>>◌
unfoldable pub ◌>>=◌ : {A B : Type 0} → M A → (A → M B) → M B
◌>>=◌ m f w = let (a, w') = m w in f a w'

abbrev pub ◌>>◌ : {A B : Type 0} → M A → M B → M B
m >> n = m >>= λ _. n

unfoldable pub pure : {A : Type 0} → A → M A
pure a w = (a, w)

-- e.now()
unfoldable pub now : M ℕ
now w = (w.clock, w)

unfoldable pub wake : M (Unit {0})
wake w = (tt, record w { woken = w.woken + 1 })

abbrev pub pass : List Turn → World → World
pass [] w = w
pass (t ∷ ts) w = record w {
  db = act_all t.acts (w.clock + t.elapsed) w.db;
  clock = w.clock + t.elapsed;
  turns = ts;
}

-- The engine's turn ends before it calls the database outside a transaction.
unfoldable pub turn : M (Unit {0})
turn w = (tt, pass w.turns w)

abbrev pub pop_fault : List Bool → World → Bool × World
pop_fault [] w = (false, w)
pop_fault (b ∷ bs) w = (b, record w { faults = bs })

-- Whether the coming call of the database fails.
unfoldable pub fault : M Bool
fault w = pop_fault w.faults w

unfoldable pub perform : {A : Type 0} → Statement A → M (Result A)
perform s w = let (r, db') = s w.clock w.db in (r, record w { db = db' })

-- A statement inside a transaction.
unfoldable pub statement : {A : Type 0} → Statement A → M (Result A)
statement s = do broken ← fault; if broken then pure failed else perform s

-- A statement on the pool.
unfoldable pub query : {A : Type 0} → Statement A → M (Result A)
query s = do turn; statement s

-- A read of another table, whose content does not change here.
unfoldable pub read : {A : Type 0} → A → M (Result A)
read a = do turn; broken ← fault; if broken then pure failed else pure (ok a)

unfoldable pub restore : Db → M (Unit {0})
restore db w = (tt, record w { db = db })

unfoldable pub tables : M Db
tables w = (w.db, w)

-- `fn` failed: what it wrote is undone; or it is committed, which may fail too.
unfoldable pub finish : {A : Type 0} → Db → Result A → M (Result A)
finish before (ok a) = do
  broken ← fault
  if broken then (do restore before; pure failed) else pure (ok a)
finish before not_found = do restore before; pure not_found
finish before failed = do restore before; pure failed

-- Savepoint: begin, `fn`, and commit or roll back.
unfoldable pub savepoint : {A : Type 0} → M (Result A) → M (Result A)
savepoint fn = do
  broken ← fault
  before ← tables
  if broken then pure failed else (do r ← fn; finish before r)

-- InTx. Other sessions do not see it half done, so their turn is before it.
unfoldable pub in_tx : {A : Type 0} → M (Result A) → M (Result A)
in_tx fn = do turn; savepoint fn

-- The branches on a result, an option or a list, as functions, so that rules about them apply.
unfoldable pub on_ok : {A B : Type 0} → Result A → (A → M B) → M B → M B
on_ok (ok a) f n = f a
on_ok not_found f n = n
on_ok failed f n = n

unfoldable pub on_result : {A B : Type 0} → Result A → (A → M B) → M B → M B → M B
on_result (ok a) f m n = f a
on_result not_found f m n = m
on_result failed f m n = n

unfoldable pub on_some : {A B : Type 0} → Option A → (A → M B) → M B → M B
on_some (Option.some a) f n = f a
on_some Option.none f n = n

unfoldable pub on_cons : {A B : Type 0} → List A → (A → List A → M B) → M B → M B
on_cons (x ∷ xs) f n = f x xs
on_cons [] f n = n
