-- ===== src/Manager/Dated.antt =====
-- The expiry of the key of a request.
use high_throughput_notifica.Prelude.{
  ℕ, ◌*◌, ◌≡◌, refl, ◌∙◌, Bool, true, false, not, List, [], some, arith, eq_iff,
}
use high_throughput_notifica.Exec.{Result, ok}
use high_throughput_notifica.Exec.Keeps.{Keeps}
use high_throughput_notifica.Exec.Ends.{
  Ends, bind-Ends, seq-Ends, lift-Ends, pure-Ends, if-Ends, Keeps-Ends,
}
use high_throughput_notifica.Exec.Results.{ok≢err}
use high_throughput_notifica.Model.Enums.{NotificationChannel}
use high_throughput_notifica.Model.Row.{Notification}
use high_throughput_notifica.Services.{Services, World, on_redis}
use high_throughput_notifica.Request.{NotificationCreate}
use high_throughput_notifica.Manager.{
  idempotency_expiry, redis_key, create_channels, create_new, create_notification,
}
use high_throughput_notifica.Manager.Kept.{create_channels-Kept}
use high_throughput_notifica.Manager.Once.{HasKey}

module _ (E : Services) (clock : ℕ → ℕ) (p : NotificationCreate) where
  abbrev DatedState : E.redis.State → Type 0
  DatedState s =
      (E.redis.has s (redis_key p.idempotency_key) ≡ true)
      × (E.redis.expiry s (redis_key p.idempotency_key) ≡ some (24 * 60 * 60))

  abbrev WhenNew : Result (List Notification × Bool) → World E → Type 0
  WhenNew r v = (created : List Notification) → r ≡ ok (created, false) → DatedState v.redis

  channels-Dated :
      (k : ℕ) (cs : List NotificationChannel) (created : List Notification)
      → Keeps (λ (w : World E). DatedState w.redis) (create_channels {E = E} clock k p cs created)
  channels-Dated k cs created =
      create_channels-Kept E DatedState
        (λ q m x s h. (
          E.redis.zadd_has q m x s (redis_key p.idempotency_key) ∙ h.0,
          E.redis.zadd_expiry q m x s (redis_key p.idempotency_key) ∙ h.1,
        ))
        clock k p cs created

  create_new-Dated :
      (w : World E) → HasKey E (redis_key p.idempotency_key) w → Ends WhenNew (create_new clock p) w
  unfolding create_new on_redis
  create_new-Dated w has =
      bind-Ends _ _ w (λ e raised created b. absurd (ok≢err b))
        λ _ returned.
          let dated : DatedState
              (E.redis.expire (redis_key p.idempotency_key) idempotency_expiry w.redis).1 =
            (
              E.redis.expire_has _ idempotency_expiry w.redis _ (omega arith) ∙ has,
              E.redis.expire_set _ idempotency_expiry w.redis returned has,
            ) in
          lift-Ends _ _ _ (λ e raised created b. absurd (ok≢err b))
            λ event is_event.
              seq-Ends _ _ _ (Keeps-Ends _ _ (channels-Dated 0 _ []) dated)
                (λ e v h created b. absurd (ok≢err b)) λ l v h. pure-Ends _ v (λ created b. h)

  create_notification-Ends : (w : World E) → Ends WhenNew (create_notification clock p) w
  unfolding create_notification on_redis
  create_notification-Ends w =
      bind-Ends _ _ w (λ e raised created b. absurd (ok≢err b))
        λ a is_new.
          if-Ends (not a) _ _ _ (λ _. pure-Ends _ _ (λ created b. absurd (not_new created b)))
            λ _. create_new-Dated _ (
              E.redis.setnx_has _ "1" w.redis a _ is_new
              ∙ rw ((eq_iff (redis_key p.idempotency_key) (redis_key p.idempotency_key)).1 refl)
                  refl)
    where
      not_new :
          (created : List Notification)
          → ¬ (◌≡◌ {A = Result (List Notification × Bool)} (ok ([], true)) (ok (created, false)))
      not_new created b = cc

-- A request that returns and is no duplicate leaves its key in Redis, to expire 24 hours after.
pub create_notification-Dated :
    (E : Services) (clock : ℕ → ℕ) (p : NotificationCreate) (w : World E)
    (created : List Notification)
    → (create_notification {E = E} clock p w).0 ≡ ok (created, false)
    → let s = (create_notification {E = E} clock p w).1.redis in
      (E.redis.has s (redis_key p.idempotency_key) ≡ true)
      × (E.redis.expiry s (redis_key p.idempotency_key) ≡ some (24 * 60 * 60))
create_notification-Dated E clock p w created done =
    (create_notification-Ends E clock p w).at created done
