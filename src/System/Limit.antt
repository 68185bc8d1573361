-- ===== src/System/Limit.antt =====
-- The number of retries of the notifications, as long as nobody retries by hand.
use high_throughput_notifica.Prelude.{
  ℕ, ◌≤◌, ◌≡◌, refl, sym, ◌∙◌, Bool, true, false, ◌&&◌, not, Option, some, inl, arith,
}
use high_throughput_notifica.Exec.{ok}
use high_throughput_notifica.Exec.Results.{ok-injective}
use high_throughput_notifica.Model.Enums.{EventType, event_of_value}
use high_throughput_notifica.Model.Row.{Notification}
use high_throughput_notifica.Services.{Services, World}
use high_throughput_notifica.Repository.Table.{row}
use high_throughput_notifica.Retry.{retry_config}
use high_throughput_notifica.Request.{NotificationCreate}
use high_throughput_notifica.Manager.{new_notification}
use high_throughput_notifica.Manager.Inserts.{Drafted, drafted}
use high_throughput_notifica.Manager.Every.{Every, Every-InsertSafe}
use high_throughput_notifica.Provider.{Providers}
use high_throughput_notifica.Dispatch.Lifecycle.{
  Progress, unchanged, marked_queued, marked_sent, marked_failed, marked_retrying,
}
use high_throughput_notifica.System.{Step, Steps, done, then_}
use high_throughput_notifica.System.Rows.{Rewritten-Every, by_hand, Step-Rows}

-- The retries of a notification are at most those that its event allows.
abbrev pub Limited : Notification → Type 0
Limited n =
    (event : EventType)
    → event_of_value n.event_type ≡ ok event
    → n.retry_count ≤ (retry_config event).max_retries

abbrev pub AllLimited : {E : Services} → World E → Type 0
AllLimited w = (j : ℕ) (n : Notification) → row w j ≡ some n → Limited n

module _ {E : Services} {providers : Providers E.Outside} where
  abbrev pub automatic : {w v : World E} → Steps providers w v → Bool
  automatic done = true
  automatic (then_ before last) = automatic before && not (by_hand last)

Progress-Limited :
    {S : Type 0} (providers : Providers S) (n m : Notification)
    → Progress providers n m
    → Limited n
    → Limited m
Progress-Limited providers n m (unchanged e) h = rw e h
Progress-Limited providers n m (marked_queued t e) h = rw e h
Progress-Limited providers n m (marked_sent t x now e) h = rw e h
Progress-Limited providers n m (marked_failed t code reason e) h = rw e h
Progress-Limited providers n m (marked_retrying t code event known room e) h =
    rw e (λ event' known'. rw (← ok-injective (sym known ∙ known')) room)

Drafted-Limited :
    (p : NotificationCreate) (m : Notification) (i : ℕ) (t : Option ℕ)
    → Drafted p m
    → Limited (record m { id = i; ctime = t })
unfolding new_notification
Drafted-Limited p m i t (drafted c s e q r is_s is_e is_q) event known = omega arith

Step-AllLimited :
    (E : Services) (providers : Providers E.Outside) {w v : World E} (s : Step providers w v)
    → by_hand s ≡ false
    → AllLimited w
    → AllLimited v
Step-AllLimited E providers s auto h =
    Step-Rows E (Every E Limited) (Every-InsertSafe E Limited Drafted-Limited) providers
      (Rewritten-Every E (Progress providers) Limited (Progress-Limited providers)) s (inl auto) h

and-both : (a b : Bool) → (a && not b) ≡ true → (a ≡ true) × (b ≡ false)
and-both true false e = (refl, refl)
and-both true true e = cc
and-both false b e = cc

-- While nobody retries by hand, the operations of the program in any order, whatever the services and
-- providers do, keep this: every stored notification of a known event has at most as many retries as
-- the limit of its event.
pub Steps-AllLimited :
    (E : Services) (providers : Providers E.Outside) (w v : World E) (run : Steps providers w v)
    → automatic run ≡ true
    → AllLimited w
    → AllLimited v
Steps-AllLimited E providers w v done auto h = h
Steps-AllLimited E providers w v (then_ {u} before last) auto h =
    let (earlier, now) = and-both (automatic before) (by_hand last) auto in
    Step-AllLimited E providers last now (Steps-AllLimited E providers w u before earlier h)
