-- ===== src/Dispatch/Outcome.antt =====
-- What a dispatch does on a database that answers: the row that it leaves, as a function of the row
-- that it found and of the attempt that the provider made.
use high_throughput_notifica.Prelude.{
  ℕ, ◌+◌, ◌≡◌, refl, sym, ap, ◌∙◌, Bool, true, false, not, Option, some, [], ltb, if◌then◌else◌,
}
use high_throughput_notifica.Exec.{Exec, Result, ok, ◌>>=◌}
use high_throughput_notifica.Exec.Ends.{Ends, lift-Ends, seq-Ends, if-Ends, weaken-Ends}
use high_throughput_notifica.Model.Enums.{
  queued, NotificationChannel, NotificationErrorCode, provider_down, EventType, event_of_value,
  channel_of_value, is_retryable,
}
use high_throughput_notifica.Model.Row.{Notification, with_status}
use high_throughput_notifica.Services.{Services, Reliable, World, on_outside}
use high_throughput_notifica.Repository.Table.{row}
use high_throughput_notifica.Repository.Total.{get_by_id-Read}
use high_throughput_notifica.Retry.{retry_config}
use high_throughput_notifica.Provider.{ProviderResult, BaseProvider, Providers}
use high_throughput_notifica.Dispatch.{
  Chance, result_error, mark_failed, schedule_retry, settle, deliver, dispatch_to, dispatch_found,
  dispatch,
}
use high_throughput_notifica.Dispatch.Held.{Held, fresh, marked}
use high_throughput_notifica.Dispatch.Attempt.{
  Attempt, delivered, failing, Attempted, down, success, failure, after_attempt,
  after_attempt-permanent, after_attempt-full, after_attempt-room, Outcome,
}
use high_throughput_notifica.Exec.Results.{ok≢err, returned≢err, ok-injective}
use high_throughput_notifica.Dispatch.Writes.{
  update_status-Set, mark_failed-Outcome, mark_sent-Outcome, give_up-Outcome, retry_later-Outcome,
}

not-true : {b : Bool} → not b ≡ true → b ≡ false
not-true {b = true} e = cc
not-true {b = false} e = refl

not-false : {b : Bool} → not b ≡ false → b ≡ true
not-false {b = true} e = refl
not-false {b = false} e = cc

module _ (E : Services) (R : Reliable E.database) (chance : Chance) (n : Notification) where
  module _ (event : EventType) (known : event_of_value n.event_type ≡ ok event) where
    abbrev After : Attempt → E.Outside → Exec (World E) Unit → World E → Type 0
    After a s m v = Ends (Outcome E n.id (after_attempt chance event n a) s) m v

    schedule_retry-After :
        (code : NotificationErrorCode) (v : World E)
        → is_retryable code ≡ true
        → Held n (row v n.id)
        → After (failing code) v.outside (schedule_retry chance n code) v
    unfolding schedule_retry
    schedule_retry-After code v again h =
        lift-Ends _ _ v (λ e raised. absurd (ok≢err (sym raised ∙ known)))
          λ event' found. rw (ok-injective (sym known ∙ found)) (
            if-Ends (ltb (retry_config event').max_retries (n.retry_count + 1)) _ _ v
              (λ full.
                rw (after_attempt-full chance event' n code full)
                  (give_up-Outcome E R chance n code v h))
              (λ room.
                rw (after_attempt-room chance event' n code again room)
                  (retry_later-Outcome E R chance n code _ v h)))

    retry_or_fail-After :
        (code : NotificationErrorCode) (v : World E)
        → Held n (row v n.id)
        → After
            (failing code)
            v.outside
            (if not (is_retryable code)
              then mark_failed chance n code
              else schedule_retry chance n code)
            v
    retry_or_fail-After code v h =
        if-Ends (not (is_retryable code)) _ _ v
          (λ fatal.
            rw (after_attempt-permanent chance event n code (not-true fatal))
              (mark_failed-Outcome E R chance n code v h))
          (λ again. schedule_retry-After code v (not-false again) h)

    settle-success :
        (result : ProviderResult) (v : World E)
        → result.success ≡ true
        → Held n (row v n.id)
        → After (delivered result.external_id) v.outside (settle chance n result) v
    unfolding settle after_attempt
    settle-success result v done h = rw done (mark_sent-Outcome E R chance n result.external_id v h)

    settle-failure :
        (result : ProviderResult) (code : NotificationErrorCode) (v : World E)
        → result.success ≡ false
        → result_error result.error_code ≡ ok code
        → Held n (row v n.id)
        → After (failing code) v.outside (settle chance n result) v
    unfolding settle
    settle-failure result code v refused why h = rw refused (
        lift-Ends _ _ v (λ e raised. absurd (ok≢err (sym raised ∙ why)))
          λ code' found. rw (ok-injective (sym why ∙ found)) (retry_or_fail-After code' v h))

    -- A call of the outside, which is known, and which leaves the table alone.
    outside-Ends :
        {A : Type 0} (m : Exec E.Outside A) (a : A) (s' : E.Outside) (v : World E)
        → m v.outside ≡ (ok a, s')
        → Held n (row v n.id)
        → Ends (λ r x. (r ≡ ok a) × (x.outside ≡ s') × Held n (row x n.id)) (on_outside {E = E} m) v
    unfolding on_outside
    outside-Ends m a s' v e h = record { at = (ap (λ p. p.0) e, ap (λ p. p.1) e, h) }

    deliver-After :
        (provider : BaseProvider E.Outside) (a : Attempt) (s' : E.Outside) (v : World E)
        → Attempted provider n v.outside a s'
        → Held n (row v n.id)
        → After a s' (deliver chance n provider) v
    unfolding deliver
    deliver-After provider a s' v try h =
        seq-Ends _ _ v (update_status-Set E R chance n queued [] v h)
          (λ e t p. absurd (returned≢err p.returned))
          λ o t p. go t p.outside (marked p.at_row.0 (unfold with_status in p.at_row.1)) try
      where
        ask : (t : World E) → Exec (World E) Unit
        ask t = do
          result ← on_outside {E = E} (provider.send n.recipient n.content)
          settle chance n result

        asked :
            (result : ProviderResult) (x : World E)
            → provider.send n.recipient n.content x.outside ≡ (ok result, s')
            → Held n (row x n.id)
            → ((y : World E)
                → y.outside ≡ s'
                → Held n (row y n.id)
                → After a s' (settle chance n result) y)
            → After a s' (ask x) x
        asked result x sends held rest =
            seq-Ends _ _ x
              (outside-Ends (provider.send n.recipient n.content) result s' x sends held)
              (λ e y p. absurd (ok≢err p.0)) (λ result' y p. rw (ok-injective p.0) (rest y p.1 p.2))

        go :
            (t : World E)
            → t.outside ≡ v.outside
            → Held n (row t n.id)
            → Attempted provider n v.outside a s'
            → After a s'
                (do
                  healthy ← on_outside {E = E} provider.health_check
                  if not healthy then schedule_retry chance n provider_down else do
                    result ← on_outside {E = E} (provider.send n.recipient n.content)
                    settle chance n result)
                t
        go t same held (down ea health) =
            seq-Ends _ _ t
              (outside-Ends provider.health_check false s' t
                (ap provider.health_check same ∙ health) held)
              (λ e x p. absurd (ok≢err p.0))
              λ healthy x p.
                rw (ok-injective p.0, ea, ← p.1)
                  (schedule_retry-After provider_down x (unfold is_retryable in refl) p.2)
        go t same held (success u result health sends good ea) =
            seq-Ends _ _ t
              (outside-Ends provider.health_check true u t (ap provider.health_check same ∙ health)
                held)
              (λ e x p. absurd (ok≢err p.0))
              λ healthy x p. rw (ok-injective p.0) (
                asked result x (ap (provider.send n.recipient n.content) p.1 ∙ sends) p.2
                  (λ y e k. rw (ea, ← e) (settle-success result y good k)))
        go t same held (failure u result code health sends bad why ea) =
            seq-Ends _ _ t
              (outside-Ends provider.health_check true u t (ap provider.health_check same ∙ health)
                held)
              (λ e x p. absurd (ok≢err p.0))
              λ healthy x p. rw (ok-injective p.0) (
                asked result x (ap (provider.send n.recipient n.content) p.1 ∙ sends) p.2
                  (λ y e k. rw (ea, ← e) (settle-failure result code y bad why k)))

    dispatch_found-After :
        (providers : Providers E.Outside) (channel : NotificationChannel)
        (provider : BaseProvider E.Outside) (a : Attempt) (s' : E.Outside) (v : World E)
        → channel_of_value n.channel ≡ ok channel
        → providers channel ≡ some provider
        → Attempted provider n v.outside a s'
        → row v n.id ≡ some n
        → After a s' (dispatch_found chance providers (some n)) v
    unfolding dispatch_found dispatch_to
    dispatch_found-After providers channel provider a s' v is_channel has try here =
        lift-Ends _ _ v (λ e raised. absurd (ok≢err (sym raised ∙ is_channel)))
          λ channel' found.
            rw (ok-injective (sym found ∙ is_channel), has)
              (deliver-After provider a s' v try (fresh here))

-- On a database that answers, a dispatch of a notification of a known channel and event, whose
-- channel has a provider, returns. The row then says what the attempt was: sent with the identifier of
-- the provider; failed, if the code is not retryable or the limit of the event is reached; otherwise
-- retrying, with one retry more. This holds whatever status the row had. The provider is asked for its
-- health, and to send only if it is healthy, once each.
pub dispatch-Outcome :
    (E : Services) (R : Reliable E.database) (chance : Chance) (providers : Providers E.Outside)
    (i : ℕ) (w : World E) (n : Notification) (channel : NotificationChannel) (event : EventType)
    (provider : BaseProvider E.Outside) (a : Attempt) (s' : E.Outside)
    → row w i ≡ some n
    → channel_of_value n.channel ≡ ok channel
    → event_of_value n.event_type ≡ ok event
    → providers channel ≡ some provider
    → Attempted provider n w.outside a s'
    → let (r, v) = dispatch {E = E} chance providers i w in
      Outcome E i (after_attempt chance event n a) s' r v
unfolding dispatch
dispatch-Outcome E R chance providers i w n channel event provider a s' here is_channel is_event has
      try =
    whole.at
  where
    n_id : n.id ≡ i
    n_id = E.database.table_id i w.db n here

    go :
        (v : World E) (o : Option Notification)
        → ((j : ℕ) → row v j ≡ row w j)
        → v.outside ≡ w.outside
        → o ≡ some n
        → Ends
            (Outcome E n.id (after_attempt chance event n a) s')
            (dispatch_found chance providers o)
            v
    go v o kept same e = rw e (
        dispatch_found-After E R chance n event is_event providers channel provider a s' v
          is_channel has (rw same try) (kept n.id ∙ ap (row w) n_id ∙ here))

    at_id :
        {r : Result Unit} {x : World E}
        → Outcome E n.id (after_attempt chance event n a) s' r x
        → Outcome E i (after_attempt chance event n a) s' r x
    at_id {x} q = record {
      returned = q.returned;
      at_row = (q.at_row.0, ap (row x) (sym n_id) ∙ q.at_row.1);
      outside = q.outside;
    }

    whole : Ends (Outcome E i (after_attempt chance event n a) s') (dispatch chance providers i) w
    whole =
        seq-Ends _ _ w (get_by_id-Read E R i w) (λ e v p. absurd (ok≢err p.found))
          λ o v p.
            weaken-Ends _ v (go v o p.rows p.outside (ok-injective p.found ∙ here))
              (λ r x q. at_id q)
