-- ===== src/Services/Sql.antt =====
-- The session of SQLAlchemy over the table `notifications`.
use high_throughput_notifica.Prelude.{ℕ, ◌≡◌, ◌≢◌, Option, none, some, ◌==◌, if◌then◌else◌}
use high_throughput_notifica.Exec.{Exec, Exception, ok, err}
use high_throughput_notifica.Model.Row.{Notification}

-- What the unit of work flushes at the next commit: an object given to `add`, or a loaded object
-- whose attributes were set.
pub data Change : Type 0 where
  new : Notification → Change
  dirty : Notification → Change

pub record Database : Type 1 where
  pub Db : Type 0
  -- the committed row of a primary key, and the clock that `func.now()` reads
  pub table : Db → ℕ → Option Notification
  pub now : Db → ℕ
  pub table_id : (i : ℕ) (db : Db) (n : Notification) → table db i ≡ some n → n.id ≡ i
  -- SELECT … WHERE id = …
  pub select : ℕ → Exec Db (Option Notification)
  -- flush of the change and COMMIT; the primary key of the object
  pub commit : Change → Exec Db ℕ
  -- reload of an object by its primary key
  pub refresh : ℕ → Exec Db Notification
  pub rollback : Exec Db Unit
  pub select_ok :
      (i : ℕ) (db : Db) (o : Option Notification) → (select i db).0 ≡ ok o → o ≡ table db i
  pub select_keeps : (i j : ℕ) (db : Db) → table (select i db).1 j ≡ table db j
  pub refresh_ok :
      (i : ℕ) (db : Db) (n : Notification) → (refresh i db).0 ≡ ok n → table db i ≡ some n
  pub refresh_keeps : (i j : ℕ) (db : Db) → table (refresh i db).1 j ≡ table db j
  pub rollback_keeps : (j : ℕ) (db : Db) → table (rollback db).1 j ≡ table db j
  -- INSERT: a new key, the server's default for `ctime`, and the unique constraint
  pub new_ok :
      (n : Notification) (db : Db) (i j : ℕ)
      → (commit (new n) db).0 ≡ ok i
      → table (commit (new n) db).1 j
        ≡ (if i == j then some (record n { id = i; ctime = some (now db) }) else table db j)
  pub new_fresh :
      (n : Notification) (db : Db) (i : ℕ) → (commit (new n) db).0 ≡ ok i → table db i ≡ none
  pub new_unique :
      (n r : Notification) (db : Db) (i j : ℕ)
      → (commit (new n) db).0 ≡ ok i
      → table db j ≡ some r
      → r.idempotency_key ≢ n.idempotency_key
  -- UPDATE, with `onupdate` for `mtime`
  pub dirty_ok :
      (n : Notification) (db : Db) (i j : ℕ)
      → (commit (dirty n) db).0 ≡ ok i
      → table (commit (dirty n) db).1 j
        ≡ (if n.id == j then some (record n { mtime = some (now db) }) else table db j)
  pub dirty_id : (n : Notification) (db : Db) (i : ℕ) → (commit (dirty n) db).0 ≡ ok i → i ≡ n.id
  -- a commit that raises leaves the table as it was
  pub commit_err :
      (c : Change) (db : Db) (e : Exception) (j : ℕ)
      → (commit c db).0 ≡ err e
      → table (commit c db).1 j ≡ table db j

-- The database answers every call: the only exception is the unique constraint's.
pub record Reliable (D : Database) : Type 0 where
  pub select_total : (i : ℕ) (db : D.Db) → (D.select i db).0 ≡ ok (D.table db i)
  pub refresh_total :
      (i : ℕ) (db : D.Db) (n : Notification) → D.table db i ≡ some n → (D.refresh i db).0 ≡ ok n
  pub dirty_total :
      (n r : Notification) (db : D.Db)
      → D.table db n.id ≡ some r
      → (D.commit (dirty n) db).0 ≡ ok n.id
