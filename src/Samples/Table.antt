-- ===== src/Samples/Table.antt =====
-- A table in memory. A row that is written stands before its older versions.
use Prim.Native.Nat.{max}
use high_throughput_notifica.Prelude.{
  ℕ, ◌+◌, ◌≤◌, ◌≡◌, ◌≢◌, refl, ap, String, Bool, false, Option, none, some, List, [], ◌∷◌, ◌==◌,
  ◌||◌, str_eq, eq_iff, if◌then◌else◌, arith,
}
use high_throughput_notifica.Exec.{Exec, Exception, Result, ok, err, other, integrity_error}
use high_throughput_notifica.Model.Row.{Notification}
use high_throughput_notifica.Services.{Database, Reliable, Change, new, dirty}

pub record Memory : Type 0 where
  pub rows : List Notification
  pub clock : ℕ

unfoldable pub find : ℕ → List Notification → Option Notification
find i [] = none
find i (n ∷ rest) = if n.id == i then some n else find i rest

next_id : List Notification → ℕ
next_id [] = 1
next_id (n ∷ rest) = max (n.id + 1) (next_id rest)

has_key : String → List Notification → Bool
has_key key [] = false
has_key key (n ∷ rest) = str_eq n.idempotency_key key || has_key key rest

-- With an outage every INSERT is refused by a lost connection.
pub commit_change : Bool → Change → Exec Memory ℕ
unfolding next_id has_key
commit_change outage (new n) db =
    if outage
    then (err (other 0), db)
    else if has_key n.idempotency_key db.rows
    then (err integrity_error, db)
    else let i = next_id db.rows in
      (ok i, record db { rows = record n { id = i; ctime = some db.clock } ∷ db.rows })
commit_change outage (dirty n) db =
    (ok n.id, record db { rows = record n { mtime = some db.clock } ∷ db.rows })

pub reload : Option Notification → Result Notification
reload none = err (other 1)
reload (some n) = ok n

pub find-id :
    (i : ℕ) (rows : List Notification) (n : Notification) → find i rows ≡ some n → n.id ≡ i
unfolding find
find-id i [] n e = cc
find-id i (m ∷ rest) n e = ground (arith, find-id i rest n)

find_above : (i : ℕ) (rows : List Notification) → next_id rows ≤ i → find i rows ≡ none
unfolding find next_id
find_above i [] h = refl
find_above i (m ∷ rest) h = ground (arith, find_above i rest)

has_key-false :
    (key : String) (rows : List Notification) (j : ℕ) (r : Notification)
    → has_key key rows ≡ false
    → find j rows ≡ some r
    → r.idempotency_key ≢ key
unfolding has_key find
has_key-false key [] j r absent e = λ _. cc
has_key-false key (m ∷ rest) j r absent e =
    λ p. ground (arith, has_key-false key rest j r, eq_iff m.idempotency_key key)

module _ (outage : Bool) (n : Notification) (db : Memory) where
  pub new_ok_lem :
      (i j : ℕ)
      → (commit_change outage (new n) db).0 ≡ ok i
      → find j (commit_change outage (new n) db).1.rows
        ≡ (if i == j then some (record n { id = i; ctime = some db.clock }) else find j db.rows)
  unfolding commit_change find
  new_ok_lem i j h = ground arith

  pub new_fresh_lem : (i : ℕ) → (commit_change outage (new n) db).0 ≡ ok i → find i db.rows ≡ none
  unfolding commit_change
  new_fresh_lem i h = ground (arith, find_above i db.rows)

  pub new_unique_lem :
      (r : Notification) (i j : ℕ)
      → (commit_change outage (new n) db).0 ≡ ok i
      → find j db.rows ≡ some r
      → r.idempotency_key ≢ n.idempotency_key
  unfolding commit_change
  new_unique_lem r i j h e = has_key-false n.idempotency_key db.rows j r (ground arith) e

  pub dirty_ok_lem :
      (i j : ℕ)
      → (commit_change outage (dirty n) db).0 ≡ ok i
      → find j (commit_change outage (dirty n) db).1.rows
        ≡ (if n.id == j then some (record n { mtime = some db.clock }) else find j db.rows)
  unfolding commit_change find
  dirty_ok_lem i j h = refl

  pub dirty_id_lem : (i : ℕ) → (commit_change outage (dirty n) db).0 ≡ ok i → i ≡ n.id
  unfolding commit_change
  dirty_id_lem i h = cc

pub commit_err_lem :
    (outage : Bool) (c : Change) (db : Memory) (e : Exception) (j : ℕ)
    → (commit_change outage c db).0 ≡ err e
    → find j (commit_change outage c db).1.rows ≡ find j db.rows
unfolding commit_change
commit_err_lem outage (new n) db e j h = ground arith
commit_err_lem outage (dirty n) db e j h = cc

pub reload-ok : (o : Option Notification) (n : Notification) → reload o ≡ ok n → o ≡ some n
unfolding reload
reload-ok none n h = cc
reload-ok (some m) n h = cc

unfoldable pub memory : Bool → Database
unfolding commit_change reload find
memory outage = record {
  Db = Memory;
  table = λ db i. find i db.rows;
  now = λ db. db.clock;
  table_id = λ i db n e. find-id i db.rows n e;
  select = λ i db. (ok (find i db.rows), db);
  commit = commit_change outage;
  refresh = λ i db. (reload (find i db.rows), db);
  rollback = λ db. (ok tt, db);
  select_ok = select_ok_lem;
  select_keeps = λ i j db. refl;
  refresh_ok = λ i db n h. reload-ok (find i db.rows) n h;
  refresh_keeps = λ i j db. refl;
  rollback_keeps = λ j db. refl;
  new_ok = λ n db i j h. new_ok_lem outage n db i j h;
  new_fresh = λ n db i h. new_fresh_lem outage n db i h;
  new_unique = λ n r db i j h e. new_unique_lem outage n db r i j h e;
  dirty_ok = λ n db i j h. dirty_ok_lem outage n db i j h;
  dirty_id = λ n db i h. dirty_id_lem outage n db i h;
  commit_err = λ c db e j h. commit_err_lem outage c db e j h;
}
  where
    select_ok_lem :
        (i : ℕ) (db : Memory) (o : Option Notification)
        → ◌≡◌ {A = Result (Option Notification)} (ok (find i db.rows)) (ok o)
        → o ≡ find i db.rows
    select_ok_lem i db o h = cc

pub memory-Reliable : Reliable (memory false)
unfolding memory
memory-Reliable = record {
  select_total = λ i db. refl;
  refresh_total = λ i db n e. ap reload e;
  dirty_total = λ n r db e. refl;
}

-- The same table behind a connection that is lost for reads.
unfoldable pub blind : Database
unfolding memory
blind = record (memory false) {
  select = λ i db. (err (other 0), db);
  select_ok = unreadable;
  select_keeps = λ i j db. refl;
}
  where
    unreadable :
        (i : ℕ) (db : Memory) (o : Option Notification)
        → ◌≡◌ {A = Result (Option Notification)} (err (other 0)) (ok o)
        → o ≡ find i db.rows
    unreadable i db o h = cc
