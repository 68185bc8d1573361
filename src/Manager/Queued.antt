-- ===== src/Manager/Queued.antt =====
-- The places of the notifications of a request in the queue.
use high_throughput_notifica.Prelude.{
  ℕ, ◌≡◌, refl, ◌∙◌, Bool, Option, none, some, List, [], ◌∷◌, ◌++◌, All,
}
use high_throughput_notifica.Exec.{ok}
use high_throughput_notifica.Decimal.{Bytes, Bytes-discrete, str}
use high_throughput_notifica.Model.Row.{Notification}
use high_throughput_notifica.Services.{Services, World}
use high_throughput_notifica.Queue.{queue_key}
use high_throughput_notifica.Request.{NotificationCreate}
use high_throughput_notifica.Manager.Grows.{Adding, create_notification-Grows}
use high_throughput_notifica.Manager.{create_notification}

abbrev pub Waits : (E : Services) → E.redis.State → Bytes → Type 0
Waits E s m = (x : ℕ) × (E.redis.score s queue_key m ≡ some x)

-- Each of these notifications has a place in the queue.
abbrev pub AllQueued : {E : Services} → List Notification → World E → Type 0
AllQueued {E} l w = All (λ (n : Notification). Waits E w.redis (str n.id)) l

-- The places of notifications, in a state of Redis.
abbrev Placed : (E : Services) → List Notification → E.redis.State → Type 0
Placed E l s = All (λ (n : Notification). Waits E s (str n.id)) l

snoc :
    (E : Services) (l : List Notification) (n : Notification) (s : E.redis.State)
    → Placed E l s
    → Waits E s (str n.id)
    → Placed E (l ++ n ∷ []) s
snoc E [] n s h q = (q, tt)
snoc E (m ∷ l) n s h q = (h.0, snoc E l n s h.1 q)

module _ (E : Services) (adding : Adding E) where
  pub zadd-Waits :
      (m k : Bytes) (x : ℕ) (s : E.redis.State)
      → Waits E s k
      → Waits E (E.redis.zadd_nx queue_key m x s).1 k
  zadd-Waits m k x s (y, h) = elim (Bytes-discrete m k) [
    | yes e ↦ (y, rw (← e) (E.redis.zadd_old queue_key m x y s (rw e h)))
    | no ne ↦ (y, E.redis.zadd_other queue_key m k x s ne ∙ h)
  ]

  pub zadd-own :
      (m : Bytes) (x : ℕ) (s : E.redis.State) (o : Option ℕ)
      → E.redis.score s queue_key m ≡ o
      → Waits E (E.redis.zadd_nx queue_key m x s).1 m
  zadd-own m x s none h = (x, E.redis.zadd_new queue_key m x s (adding queue_key m x s) h)
  zadd-own m x s (some y) h = (y, E.redis.zadd_old queue_key m x y s h)

  zadd-AllQueued :
      (m : Bytes) (x : ℕ) (l : List Notification) (s : E.redis.State)
      → All (λ (n : Notification). Waits E s (str n.id)) l
      → All (λ (n : Notification). Waits E (E.redis.zadd_nx queue_key m x s).1 (str n.id)) l
  zadd-AllQueued m x [] s h = tt
  zadd-AllQueued m x (n ∷ l) s h = (zadd-Waits m (str n.id) x s h.0, zadd-AllQueued m x l s h.1)

  grow-Placed :
      (l : List Notification) (n : Notification) (x : ℕ) (s : E.redis.State)
      → Placed E l s
      → Placed E (l ++ n ∷ []) (E.redis.zadd_nx queue_key (str n.id) x s).1
  grow-Placed l n x s h =
      snoc E l n _ (zadd-AllQueued (str n.id) x l s h) (zadd-own (str n.id) x s _ refl)

-- While Redis answers every ZADD, a request that returns leaves each notification that it returns in
-- the queue.
pub create_notification-AllQueued :
    (E : Services) (adding : Adding E) (clock : ℕ → ℕ) (p : NotificationCreate) (w : World E)
    (created : List Notification) (is_duplicate : Bool)
    → (create_notification {E = E} clock p w).0 ≡ ok (created, is_duplicate)
    → AllQueued created (create_notification {E = E} clock p w).1
create_notification-AllQueued E adding clock p w created is_duplicate returned =
    (create_notification-Grows E adding (Placed E) (grow-Placed E adding) p w (λ s same. tt)
        clock).at
      created is_duplicate returned
