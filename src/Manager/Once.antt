-- ===== src/Manager/Once.antt =====
-- A request is taken once for each idempotency key.
use high_throughput_notifica.Prelude.{
  ℕ, ◌≡◌, refl, sym, ◌∙◌, String, Bool, true, false, not, List, [], arith, eq_iff,
}
use high_throughput_notifica.Exec.{Result, ok}
use high_throughput_notifica.Exec.Keeps.{Keeps, keeps_rules}
use high_throughput_notifica.Exec.Ends.{Ends, bind-Ends, pure-Ends, if-Ends, Keeps-Ends}
use high_throughput_notifica.Exec.Results.{ok≢err}
use high_throughput_notifica.Model.Enums.{NotificationChannel}
use high_throughput_notifica.Model.Row.{Notification}
use high_throughput_notifica.Decimal.{Bytes}
use high_throughput_notifica.Services.{Services, World, on_redis}
use high_throughput_notifica.Request.{NotificationCreate}
use high_throughput_notifica.Manager.{
  idempotency_expiry, redis_key, create_channels, create_new, create_notification,
}
use high_throughput_notifica.Manager.Kept.{create_channels-Kept}

-- What a duplicate request leaves: no notification, and all but the expiry of keys as it was.
pub record Blocked (E : Services) (w : World E) (r : Result (List Notification × Bool))
    (v : World E) : Type 0 where
  pub returned : r ≡ ok ([], true)
  pub db : v.db ≡ w.db
  pub broker : v.broker ≡ w.broker
  pub outside : v.outside ≡ w.outside
  pub queue : (q : String) (m : Bytes) → E.redis.score v.redis q m ≡ E.redis.score w.redis q m

stale : (is_new has : Bool) → is_new ≡ not has → has ≡ true → ¬ (not is_new ≡ false)
stale true true e h n = cc
stale true false e h n = cc
stale false has e h n = cc

module _ (E : Services) (key : String) where
  abbrev pub HasKey : World E → Type 0
  HasKey w = E.redis.has w.redis key ≡ true

  expire-HasKey :
      (k : String) → Keeps HasKey (on_redis {E = E} (E.redis.expire k idempotency_expiry))
  unfolding on_redis
  expire-HasKey k = record {
    at = λ w h. E.redis.expire_has k idempotency_expiry w.redis key (omega arith) ∙ h;
  }

  channels-HasKey :
      (clock : ℕ → ℕ) (k : ℕ) (p : NotificationCreate) (cs : List NotificationChannel)
      (created : List Notification)
      → Keeps HasKey (create_channels {E = E} clock k p cs created)
  channels-HasKey =
      create_channels-Kept E (λ s. E.redis.has s key ≡ true)
        (λ q m x s h. E.redis.zadd_has q m x s key ∙ h)

  create_new-HasKey :
      (clock : ℕ → ℕ) (p : NotificationCreate) → Keeps HasKey (create_new {E = E} clock p)
  unfolding create_new
  create_new-HasKey clock p = search (keeps_rules, expire-HasKey, channels-HasKey) depth 12

module _ (E : Services) (clock : ℕ → ℕ) (p : NotificationCreate) where
  abbrev key : String
  key = redis_key p.idempotency_key

  create_notification-HasKey :
      (w : World E) (b : Bool)
      → (E.redis.setnx key "1" w.redis).0 ≡ ok b
      → Ends (λ _ v. HasKey E key v) (create_notification clock p) w
  unfolding create_notification on_redis
  create_notification-HasKey w b done =
      bind-Ends _ _ w (λ e raised. absurd (ok≢err (sym raised ∙ done)))
        λ a _.
          if-Ends (not a) _ _ _ (λ _. pure-Ends _ _ set)
            (λ _. Keeps-Ends _ _ (create_new-HasKey E key clock p) set)
    where
      set : HasKey E key (record w { redis = (E.redis.setnx key "1" w.redis).1 })
      set = E.redis.setnx_has key "1" w.redis b key done ∙ rw ((eq_iff key key).1 refl)

  pub create_notification-Blocked :
      (w : World E) (b : Bool)
      → HasKey E key w
      → (E.redis.setnx key "1" w.redis).0 ≡ ok b
      → Ends (Blocked E w) (create_notification clock p) w
  unfolding create_notification on_redis
  create_notification-Blocked w b has done =
      bind-Ends _ _ w (λ e raised. absurd (ok≢err (sym raised ∙ done)))
        λ a is_new.
          if-Ends (not a) _ _ _
            (λ _. pure-Ends _ _ (record {
              returned = refl;
              db = refl;
              broker = refl;
              outside = refl;
              queue = λ q m. E.redis.setnx_score key "1" w.redis q m;
            }))
            (λ old. absurd (stale a _ (E.redis.setnx_ok key "1" w.redis a is_new) has old))

-- Once a request was seen, that is once Redis took its key, and as long as Redis has that key as the
-- request left it, that is until the key expires: a request with the same key is answered as a
-- duplicate, whatever it asks for and whatever happened meanwhile, and changes neither a row nor the
-- queue. This holds too if the first request raised before it created anything.
pub create_notification-once :
    (E : Services) (clock clock' : ℕ → ℕ) (p p' : NotificationCreate) (w w' : World E) (b b' : Bool)
    → p'.idempotency_key ≡ p.idempotency_key
    → (E.redis.setnx (redis_key p.idempotency_key) "1" w.redis).0 ≡ ok b
    → E.redis.has w'.redis (redis_key p.idempotency_key)
      ≡ E.redis.has (create_notification {E = E} clock p w).1.redis (redis_key p.idempotency_key)
    → (E.redis.setnx (redis_key p.idempotency_key) "1" w'.redis).0 ≡ ok b'
    → let (r, v) = create_notification {E = E} clock' p' w' in Blocked E w' r v
create_notification-once E clock clock' p p' w w' b b' same first after second =
    (create_notification-Blocked E clock' p' w' b' (rw (same) seen) (rw (same) second)).at
  where
    seen : HasKey E (redis_key p.idempotency_key) w'
    seen = after ∙ (create_notification-HasKey E clock p w b first).at
