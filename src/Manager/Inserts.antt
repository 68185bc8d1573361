-- ===== src/Manager/Inserts.antt =====
-- A property of the table, over a request: what has to hold of the rows that it inserts.
use high_throughput_notifica.Prelude.{ℕ, suc, ◌≡◌, refl, String, List, [], ◌∷◌, Option, none, some}
use high_throughput_notifica.Exec.{Exception, integrity_error, Result, ok, err, Exec}
use high_throughput_notifica.Exec.Keeps.{
  Keeps, keeps_rules, Keeps-raise, Keeps-pure, Keeps-bind, Keeps-try, Keeps-lift_bind,
}
use high_throughput_notifica.Model.Enums.{NotificationChannel}
use high_throughput_notifica.Model.Row.{Notification}
use high_throughput_notifica.Services.{Services, World, new, on_db, on_redis}
use high_throughput_notifica.Services.Frame.{on_redis-frame}
use high_throughput_notifica.Repository.{create, get_by_id}
use high_throughput_notifica.Repository.Table.{get_by_id-Ends}
use high_throughput_notifica.Queue.{enqueue}
use high_throughput_notifica.Queue.Frame.{enqueue-frame}
use high_throughput_notifica.Request.{
  NotificationCreate, source_service_as_int, event_type_as_int, priority_as_int,
}
use high_throughput_notifica.Manager.{
  new_notification, insert_for, create_and_enqueue, expire_all, skip_duplicate, create_channel,
  create_channels, create_new, create_notification,
}

-- The notifications that a request may insert.
pub data Drafted (p : NotificationCreate) : Notification → Type 0 where
  drafted :
      (c : NotificationChannel) (source event priority : ℕ) (recipient : String)
      → source_service_as_int p ≡ ok source
      → event_type_as_int p ≡ ok event
      → priority_as_int p ≡ ok priority
      → Drafted p (new_notification p c source event priority recipient)

-- A property that depends on the rows only, and that the inserts of a request keep.
pub record InsertSafe (E : Services) (Q : E.database.Db → Type 0) : Type 0 where
  pub stable :
      (d d' : E.database.Db) → ((j : ℕ) → E.database.table d' j ≡ E.database.table d j) → Q d → Q d'
  pub inserts :
      (p : NotificationCreate) (m : Notification) (d : E.database.Db) (i : ℕ)
      → Drafted p m
      → (E.database.commit (new m) d).0 ≡ ok i
      → Q d
      → Q (E.database.commit (new m) d).1

module _ (E : Services) (Q : E.database.Db → Type 0) (safe : InsertSafe E Q) where
  abbrev Rows : World E → Type 0
  Rows w = Q w.db

  commit-Rows :
      (p : NotificationCreate) (m : Notification)
      → Drafted p m
      → Keeps Rows (on_db {E = E} (E.database.commit (new m)))
  unfolding on_db
  commit-Rows p m draft = record { at = λ w h. go w h (E.database.commit (new m) w.db).0 refl }
    where
      go :
          (w : World E)
          → Rows w
          → (r : Result ℕ) → (E.database.commit (new m) w.db).0 ≡ r
          → Q (E.database.commit (new m) w.db).1
      go w h (err e) raised =
          safe.stable w.db _ (λ j. E.database.commit_err (new m) w.db e j raised) h
      go w h (ok i) done = safe.inserts p m w.db i draft done h

  refresh-Rows : (i : ℕ) → Keeps Rows (on_db {E = E} (E.database.refresh i))
  unfolding on_db
  refresh-Rows i = record {
    at = λ w h. safe.stable w.db _ (λ j. E.database.refresh_keeps i j w.db) h;
  }

  rollback-Rows : Keeps Rows (on_db {E = E} E.database.rollback)
  unfolding on_db
  rollback-Rows = record {
    at = λ w h. safe.stable w.db _ (λ j. E.database.rollback_keeps j w.db) h;
  }

  -- A read keeps a property of the rows as well.
  pub get_by_id-Rows : (i : ℕ) → Keeps Rows (get_by_id {E = E} i)
  get_by_id-Rows i = record { at = λ w h. safe.stable w.db _ ((get_by_id-Ends {E = E} i w).at.0) h }

  redis-Rows : {A : Type 0} (m : Exec E.redis.State A) → Keeps Rows (on_redis {E = E} m)
  redis-Rows m = on_redis-frame E (λ d b o. Q d) m

  enqueue-Rows : (t i p : ℕ) → Keeps Rows (enqueue {E = E} t i p)
  enqueue-Rows t i p = enqueue-frame E (λ d b o. Q d) t i p

  expire_all-Rows : (created : List Notification) → Keeps Rows (expire_all {E = E} created)
  unfolding expire_all
  expire_all-Rows created = record { at = λ w h. h }

  skip_duplicate-Rows :
      (created : List Notification) (e : Exception) → Keeps Rows (skip_duplicate {E = E} created e)
  unfolding skip_duplicate
  skip_duplicate-Rows created integrity_error =
      search (keeps_rules, rollback-Rows, expire_all-Rows) depth 9
  skip_duplicate-Rows created _ = Keeps-raise _

  module _ (p : NotificationCreate) where
    insert_for-Rows :
        (c : NotificationChannel) (s e q : ℕ) (o : Option String)
        → source_service_as_int p ≡ ok s
        → event_type_as_int p ≡ ok e
        → priority_as_int p ≡ ok q
        → Keeps Rows (insert_for {E = E} p c s e q o)
    unfolding insert_for create
    insert_for-Rows c s e q none is_s is_e is_q = Keeps-raise _
    insert_for-Rows c s e q (some t) is_s is_e is_q =
        Keeps-bind _ _ (commit-Rows p _ (drafted c s e q t is_s is_e is_q)) refresh-Rows

    create_and_enqueue-Rows :
        (t : ℕ) (c : NotificationChannel) (s e q : ℕ) (created : List Notification)
        → source_service_as_int p ≡ ok s
        → event_type_as_int p ≡ ok e
        → priority_as_int p ≡ ok q
        → Keeps Rows (create_and_enqueue {E = E} t p c s e q created)
    unfolding create_and_enqueue
    create_and_enqueue-Rows t c s e q created is_s is_e is_q =
        Keeps-bind _ _ (insert_for-Rows c s e q _ is_s is_e is_q)
          (λ saved. Keeps-bind _ _ (enqueue-Rows t saved.id saved.priority) (λ _. Keeps-pure _))

    create_channel-Rows :
        (t : ℕ) (c : NotificationChannel) (created : List Notification)
        → Keeps Rows (create_channel {E = E} t p c created)
    unfolding create_channel
    create_channel-Rows t c created = Keeps-lift_bind _ _ λ s is_s. Keeps-lift_bind _ _ λ e is_e.
        Keeps-lift_bind _ _ λ q is_q.
          Keeps-try _ _ (create_and_enqueue-Rows t c s e q created is_s is_e is_q)
            (skip_duplicate-Rows created)

    pub create_channels-Rows :
        (clock : ℕ → ℕ) (k : ℕ) (cs : List NotificationChannel) (created : List Notification)
        → Keeps Rows (create_channels {E = E} clock k p cs created)
    unfolding create_channels
    create_channels-Rows clock k [] created = Keeps-pure _
    create_channels-Rows clock k (c ∷ cs) created =
        Keeps-bind _ _ (create_channel-Rows (clock k) c created)
          (λ more. create_channels-Rows clock (suc k) cs more)

    create_new-Rows : (clock : ℕ → ℕ) → Keeps Rows (create_new {E = E} clock p)
    unfolding create_new
    create_new-Rows clock = search (keeps_rules, redis-Rows, create_channels-Rows) depth 12

    pub create_notification-Rows :
        (clock : ℕ → ℕ) → Keeps Rows (create_notification {E = E} clock p)
    unfolding create_notification
    create_notification-Rows clock = search (keeps_rules, redis-Rows, create_new-Rows) depth 12
