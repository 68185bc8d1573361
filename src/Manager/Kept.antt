-- ===== src/Manager/Kept.antt =====
-- What the loop over the channels of a request keeps in Redis.
use high_throughput_notifica.Prelude.{ℕ, suc, String, List, [], ◌∷◌, Option, none, some}
use high_throughput_notifica.Exec.{Exception, integrity_error, Exec}
use high_throughput_notifica.Exec.Keeps.{Keeps, keeps_rules, Keeps-raise, Keeps-pure, Keeps-bind}
use high_throughput_notifica.Model.Enums.{NotificationChannel}
use high_throughput_notifica.Model.Row.{Notification}
use high_throughput_notifica.Decimal.{Bytes}
use high_throughput_notifica.Services.{Services, World, on_db, on_redis}
use high_throughput_notifica.Services.Frame.{on_db-frame}
use high_throughput_notifica.Repository.{create}
use high_throughput_notifica.Queue.{enqueue}
use high_throughput_notifica.Request.{NotificationCreate}
use high_throughput_notifica.Manager.{
  insert_for, create_and_enqueue, expire_all, skip_duplicate, create_channel, create_channels,
}

-- What ZADD keeps of Redis, the loop over the channels keeps.
module _ (E : Services) (J : E.redis.State → Type 0)
    (zadd_keeps : (q : String) (m : Bytes) (x : ℕ) (s : E.redis.State)
      → J s
      → J (E.redis.zadd_nx q m x s).1) where
  abbrev Kept : World E → Type 0
  Kept w = J w.redis

  zadd-Kept :
      (q : String) (m : Bytes) (x : ℕ) → Keeps Kept (on_redis {E = E} (E.redis.zadd_nx q m x))
  unfolding on_redis
  zadd-Kept q m x = record { at = λ w h. zadd_keeps q m x w.redis h }

  enqueue-Kept : (t i p : ℕ) → Keeps Kept (enqueue {E = E} t i p)
  unfolding enqueue
  enqueue-Kept t i p = search (keeps_rules, zadd-Kept) depth 9

  db-Kept : {A : Type 0} (m : Exec E.database.Db A) → Keeps Kept (on_db {E = E} m)
  db-Kept m = on_db-frame E (λ r b o. J r) m

  create-Kept : (n : Notification) → Keeps Kept (create {E = E} n)
  unfolding create
  create-Kept n = search (keeps_rules, db-Kept) depth 9

  insert_for-Kept :
      (p : NotificationCreate) (c : NotificationChannel) (s e q : ℕ) (o : Option String)
      → Keeps Kept (insert_for {E = E} p c s e q o)
  unfolding insert_for
  insert_for-Kept p c s e q none = Keeps-raise _
  insert_for-Kept p c s e q (some t) = create-Kept _

  expire_all-Kept : (created : List Notification) → Keeps Kept (expire_all {E = E} created)
  unfolding expire_all
  expire_all-Kept created = record { at = λ w h. h }

  skip_duplicate-Kept :
      (created : List Notification) (e : Exception) → Keeps Kept (skip_duplicate {E = E} created e)
  unfolding skip_duplicate
  skip_duplicate-Kept created integrity_error =
      search (keeps_rules, db-Kept, expire_all-Kept) depth 9
  skip_duplicate-Kept created _ = Keeps-raise _

  create_and_enqueue-Kept :
      (t : ℕ) (p : NotificationCreate) (c : NotificationChannel) (s e q : ℕ)
      (created : List Notification)
      → Keeps Kept (create_and_enqueue {E = E} t p c s e q created)
  unfolding create_and_enqueue
  create_and_enqueue-Kept t p c s e q created =
      search (keeps_rules, insert_for-Kept, enqueue-Kept) depth 9

  create_channel-Kept :
      (t : ℕ) (p : NotificationCreate) (c : NotificationChannel) (created : List Notification)
      → Keeps Kept (create_channel {E = E} t p c created)
  unfolding create_channel
  create_channel-Kept t p c created =
      search (keeps_rules, create_and_enqueue-Kept, skip_duplicate-Kept) depth 12

  pub create_channels-Kept :
      (clock : ℕ → ℕ) (k : ℕ) (p : NotificationCreate) (cs : List NotificationChannel)
      (created : List Notification)
      → Keeps Kept (create_channels {E = E} clock k p cs created)
  unfolding create_channels
  create_channels-Kept clock k p [] created = Keeps-pure _
  create_channels-Kept clock k p (c ∷ cs) created =
      Keeps-bind _ _ (create_channel-Kept (clock k) p c created)
        (λ more. create_channels-Kept clock (suc k) p cs more)
