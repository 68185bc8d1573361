-- ===== src/Manager/Grows.antt =====
-- What a request that returns leaves in the queue: a relation between the notifications that it returns
-- and the queue, which each ZADD extends.
use high_throughput_notifica.Prelude.{
  ℕ, suc, ◌≡◌, refl, sym, ap, ◌∙◌, not, Bool, String, Option, none, some, List, [], ◌∷◌, ◌++◌,
}
use high_throughput_notifica.Exec.{
  Exception, integrity_error, Result, ok, err, ◌>>=◌, try_except, pure,
}
use high_throughput_notifica.Exec.Ends.{
  Ends, bind-Ends, lift-Ends, seq-Ends, pure-Ends, raise-Ends, if-Ends, try-Ends, Keeps-Ends,
}
use high_throughput_notifica.Exec.Keeps.{Keeps, keeps_rules}
use high_throughput_notifica.Exec.Results.{ok≢err, ok-injective}
use high_throughput_notifica.Decimal.{Bytes, str}
use high_throughput_notifica.Model.Enums.{NotificationChannel}
use high_throughput_notifica.Model.Row.{Notification}
use high_throughput_notifica.Model.Channels.{event_channel_map}
use high_throughput_notifica.Services.{Services, World, on_db, on_redis}
use high_throughput_notifica.Services.Frame.{on_db-frame}
use high_throughput_notifica.Repository.{create}
use high_throughput_notifica.Queue.{queue_key, score_of, enqueue}
use high_throughput_notifica.Request.{NotificationCreate}
use high_throughput_notifica.Manager.{
  redis_key, idempotency_expiry, insert_for, create_and_enqueue, expire_all, skip_duplicate,
  create_channel, create_channels, create_new, create_notification,
}

-- Redis answers every ZADD.
abbrev pub Adding : Services → Type 0
Adding E =
    (q : String) (m : Bytes) (x : ℕ) (s : E.redis.State) → (E.redis.zadd_nx q m x s).0 ≡ ok tt

module _ (E : Services) (adding : Adding E) (J : List Notification → E.redis.State → Type 0)
    (grow : (l : List Notification) (n : Notification) (x : ℕ) (s : E.redis.State)
      → J l s
      → J (l ++ n ∷ []) (E.redis.zadd_nx queue_key (str n.id) x s).1) where
  enqueue-redis :
      (t i p : ℕ) (w : World E)
      → Ends
          (λ r v.
            ((b : Bool) × (r ≡ ok b))
            × (v.redis ≡ (E.redis.zadd_nx queue_key (str i) (score_of p t) w.redis).1))
          (enqueue {E = E} t i p)
          w
  unfolding enqueue try_except ◌>>=◌ on_redis pure
  enqueue-redis t i p w = record {
    at = rw (adding queue_key (str i) (score_of p t) w.redis) ((_, refl), refl);
  }

  -- What a run returns stands in the relation; what was there before does when it raises.
  abbrev Grown : List Notification → Result (List Notification) → World E → Type 0
  Grown l r v =
      ((x : Exception) → r ≡ err x → J l v.redis)
      × ((m : List Notification) → r ≡ ok m → J m v.redis)

  module _ (p : NotificationCreate) where
    insert_for-kept :
        (l : List Notification) (c : NotificationChannel) (s e q : ℕ) (o : Option String)
        → Keeps (λ w. J l w.redis) (insert_for {E = E} p c s e q o)
    unfolding insert_for create
    insert_for-kept l c s e q none = search keeps_rules
    insert_for-kept l c s e q (some t) =
        search (keeps_rules, on_db-frame E (λ r b o. J l r)) depth 9

    create_and_enqueue-Grown :
        (t : ℕ) (c : NotificationChannel) (s e q : ℕ) (l : List Notification) (w : World E)
        → J l w.redis
        → Ends (Grown l) (create_and_enqueue {E = E} t p c s e q l) w
    unfolding create_and_enqueue
    create_and_enqueue-Grown t c s e q l w h =
        seq-Ends _ _ w (Keeps-Ends _ w (insert_for-kept l c s e q _) h)
          (λ x v k. (λ y raised. k, λ m b. absurd (ok≢err b)))
          λ saved v k.
            seq-Ends _ _ v (enqueue-redis t saved.id saved.priority v)
              (λ x u r. absurd (ok≢err r.0.1))
              λ b u r. pure-Ends _ u (
                λ y raised. absurd (ok≢err (sym raised)),
                λ m b. rw (← ok-injective b, r.1) (grow l saved _ v.redis k),
              )

    skip_duplicate-Grown :
        (l : List Notification) (x : Exception) (w : World E)
        → J l w.redis
        → Ends (Grown l) (skip_duplicate {E = E} l x) w
    unfolding skip_duplicate expire_all on_db
    skip_duplicate-Grown l integrity_error w h =
        bind-Ends _ _ w (λ x raised. (λ y e. h, λ m b. absurd (ok≢err b)))
          λ _ _.
            bind-Ends _ _ _ (λ x raised. (λ y e. h, λ m b. absurd (ok≢err b)))
              λ _ _. pure-Ends l _ (λ y e. h, λ m b. rw (← ok-injective b) h)
    skip_duplicate-Grown l _ w h = raise-Ends _ w (λ y e. h, λ m b. absurd (ok≢err b))

    create_channel-Grown :
        (t : ℕ) (c : NotificationChannel) (l : List Notification) (w : World E)
        → J l w.redis
        → Ends (Grown l) (create_channel {E = E} t p c l) w
    unfolding create_channel
    create_channel-Grown t c l w h = lift-Ends _ _ w raised λ s _. lift-Ends _ _ w raised λ e _.
        lift-Ends _ _ w raised λ q _.
          try-Ends {P = Grown l} _ _ w (create_and_enqueue-Grown t c s e q l w h) (λ m v g. g)
            λ x v g. skip_duplicate-Grown l x v (g.0 x refl)
      where
        raised : {A : Type 0} {r : Result A} (x : Exception) → r ≡ err x → Grown l (err x) w
        raised x _ = (λ y e. h, λ m b. absurd (ok≢err b))

    create_channels-Grows :
        (clock : ℕ → ℕ) (k : ℕ) (cs : List NotificationChannel) (l : List Notification)
        (w : World E)
        → J l w.redis
        → Ends
            (λ r v. (m : List Notification) → r ≡ ok m → J m v.redis)
            (create_channels {E = E} clock k p cs l)
            w
    unfolding create_channels
    create_channels-Grows clock k [] l w h = pure-Ends _ w (λ m b. rw (← ok-injective b) h)
    create_channels-Grows clock k (c ∷ cs) l w h =
        seq-Ends _ _ w (create_channel-Grown (clock k) c l w h) (λ x v g m b. absurd (ok≢err b))
          λ m v g. create_channels-Grows clock (suc k) cs m v (g.1 m refl)

    module _ (w : World E)
        (begins : (s : E.redis.State)
          → ((m : Bytes) → E.redis.score s queue_key m ≡ E.redis.score w.redis queue_key m)
          → J [] s) where
      create_new-Grows :
          (clock : ℕ → ℕ) (v : World E)
          → ((m : Bytes) → E.redis.score v.redis queue_key m ≡ E.redis.score w.redis queue_key m)
          → Ends
              (λ r u. (m : List Notification) (d : Bool) → r ≡ ok (m, d) → J m u.redis)
              (create_new {E = E} clock p)
              v
      unfolding create_new on_redis
      create_new-Grows clock v same =
          bind-Ends _ _ v (λ x raised m d b. absurd (ok≢err b))
            λ _ _.
              lift-Ends _ _ _ (λ x raised m d b. absurd (ok≢err b))
                λ event _.
                  seq-Ends _ _ _
                    (create_channels-Grows clock 0 (event_channel_map event) [] _ (
                      begins _ (λ m.
                        E.redis.expire_score (redis_key p.idempotency_key) idempotency_expiry
                          v.redis queue_key m
                        ∙ same m)))
                    (λ x u g m d b. absurd (ok≢err b))
                    λ l u g. pure-Ends _ u λ m d b. rw (← ap (λ q. q.0) (ok-injective b)) (g l refl)

      pub create_notification-Grows :
          (clock : ℕ → ℕ)
          → Ends
              (λ r v. (m : List Notification) (d : Bool) → r ≡ ok (m, d) → J m v.redis)
              (create_notification {E = E} clock p)
              w
      unfolding create_notification on_redis
      create_notification-Grows clock =
          bind-Ends _ _ w (λ x raised m d b. absurd (ok≢err b))
            λ is_new _.
              if-Ends (not is_new) _ _ _
                (λ _.
                  pure-Ends _ _ (λ m d b. rw (← ap (λ q. q.0) (ok-injective b)) (begins _ same)))
                (λ _. create_new-Grows clock _ same)
        where
          same :
              (m : Bytes)
              → E.redis.score
                  (E.redis.setnx (redis_key p.idempotency_key) "1" w.redis).1
                  queue_key
                  m
                ≡ E.redis.score w.redis queue_key m
          same m = E.redis.setnx_score (redis_key p.idempotency_key) "1" w.redis queue_key m
