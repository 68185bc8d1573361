-- ===== src/Dispatch/Progress.antt =====
-- What one dispatch can do to the table, whatever the database, the broker and the providers do.
use mathlib.Core.Option.{some-injective}
use high_throughput_notifica.Prelude.{
  ℕ, ◌+◌, ◌≤◌, ◌≡◌, refl, sym, ap, ◌∙◌, subst, Bool, true, false, not, String, Option, none, some,
  List, [], ltb, inl, inr, ◌⊎◌, arith,
}
use high_throughput_notifica.Exec.{Exec, ok, ◌>>=◌}
use high_throughput_notifica.Exec.Ends.{
  Ends, lift-Ends, seq-Ends, pure-Ends, if-Ends, weaken-Ends, Keeps-Ends,
}
use high_throughput_notifica.Exec.Keeps.{Keeps, Keeps-pure, Keeps-bind}
use high_throughput_notifica.Model.Enums.{
  NotificationStatus, queued, sent, failed, retrying, NotificationErrorCode, NotificationChannel,
  channel_of_value, unknown, provider_down, EventType, event_of_value, is_retryable,
}
use high_throughput_notifica.Model.Row.{Notification, Assignment, with_status}
use high_throughput_notifica.Services.{Services, World, on_outside}
use high_throughput_notifica.Services.Frame.{on_outside-frame}
use high_throughput_notifica.Repository.{update_status}
use high_throughput_notifica.Repository.Table.{row, get_by_id-Ends}
use high_throughput_notifica.Queue.Frame.{publish_retry-frame}
use high_throughput_notifica.Retry.{retry_config}
use high_throughput_notifica.Provider.{ProviderResult, BaseProvider, Providers}
use high_throughput_notifica.Dispatch.{
  Chance, mark_sent, mark_failed, give_up, retry_later, schedule_retry, settle, deliver,
  dispatch_to, dispatch_found, dispatch,
}
use high_throughput_notifica.Dispatch.Frame.{send_to_dlq-frame}
use high_throughput_notifica.Dispatch.Lifecycle.{
  Reason, no_provider, permanent, exhausted, Progress, unchanged, marked_sent, marked_failed,
  marked_retrying, Dispatched,
}
use high_throughput_notifica.Dispatch.Held.{
  Held, fresh, marked, Under, Ending, Done, update_status-Ending, Under-Done, Ending-Done,
}

not-true : {b : Bool} → not b ≡ true → b ≡ false
not-true {b = true} e = cc
not-true {b = false} e = refl

module _ (E : Services) (providers : Providers E.Outside) (w : World E) (n : Notification)
    (chance : Chance) where
  abbrev EndsDone : Exec (World E) Unit → World E → Type 0
  EndsDone m v = Ends (λ _ v'. Done E providers w n.id n v'.db) m v

  -- A write, then the rest, which leaves the table alone.
  write_then :
      (status : NotificationStatus) (kwargs : List Assignment)
      (rest : Option Notification → Exec (World E) Unit) (v : World E)
      → ((t : Option ℕ) → Progress providers n (record (with_status n status kwargs) { mtime = t }))
      → ((o : Option Notification)
          → Keeps (λ (x : World E). Done E providers w n.id n x.db) (rest o))
      → Under E providers w n.id n v.db
      → EndsDone (update_status n.id status kwargs >>= rest) v
  write_then status kwargs rest v step quiet u =
      seq-Ends _ rest v (update_status-Ending E providers w n.id n status kwargs v u)
        (λ e t p. Ending-Done E providers w n.id n status kwargs t.db step p)
        (λ o t p.
          Keeps-Ends _ t (quiet o) (Ending-Done E providers w n.id n status kwargs t.db step p))

  mark_sent-Done :
      (external_id : Option String) (v : World E)
      → Under E providers w n.id n v.db
      → EndsDone (mark_sent chance n external_id) v
  unfolding mark_sent with_status
  mark_sent-Done external_id v u =
      write_then sent _ _ v (λ t. marked_sent t external_id chance.now refl) (λ o. Keeps-pure tt) u

  mark_failed-Done :
      (code : NotificationErrorCode) (v : World E)
      → Reason providers n code
      → Under E providers w n.id n v.db
      → EndsDone (mark_failed chance n code) v
  unfolding mark_failed with_status
  mark_failed-Done code v why u =
      write_then failed _ _ v (λ t. marked_failed t code why refl) (λ o. Keeps-pure tt) u

  give_up-Done :
      (code : NotificationErrorCode) (v : World E)
      → Reason providers n code
      → Under E providers w n.id n v.db
      → EndsDone (give_up chance n code) v
  unfolding give_up
  give_up-Done code v why u =
      seq-Ends _ _ v (mark_failed-Done code v why u) (λ e t d. d)
        (λ _ t d.
          Keeps-Ends _ t (send_to_dlq-frame E (λ d _ _. Done E providers w n.id n d) chance n code)
            d)

  retry_later-Done :
      (code : NotificationErrorCode) (event : EventType) (v : World E)
      → event_of_value n.event_type ≡ ok event
      → n.retry_count + 1 ≤ (retry_config event).max_retries
      → Under E providers w n.id n v.db
      → EndsDone (retry_later chance n code (retry_config event)) v
  unfolding retry_later with_status
  retry_later-Done code event v e le u =
      write_then retrying _ _ v (λ t. marked_retrying t code event e le refl)
        (λ o.
          Keeps-bind _ _ (publish_retry-frame E (λ d _ _. Done E providers w n.id n d) _ _)
            (λ _. Keeps-pure tt))
        u

  schedule_retry-Done :
      (code : NotificationErrorCode) (v : World E)
      → Under E providers w n.id n v.db
      → EndsDone (schedule_retry chance n code) v
  unfolding schedule_retry
  schedule_retry-Done code v u =
      lift-Ends _ _ v (λ e _. Under-Done E providers w n.id n v.db u)
        λ event found.
          if-Ends (ltb (retry_config event).max_retries (n.retry_count + 1)) _ _ v
            (λ full. give_up-Done code v (exhausted event found (ground arith)) u)
            (λ room. retry_later-Done code event v found (ground arith) u)

  settle-Done :
      (result : ProviderResult) (v : World E)
      → Under E providers w n.id n v.db
      → EndsDone (settle chance n result) v
  unfolding settle
  settle-Done result v u =
      if-Ends result.success _ _ v (λ _. mark_sent-Done result.external_id v u)
        λ _.
          lift-Ends _ _ v (λ e _. Under-Done E providers w n.id n v.db u)
            λ code _.
              if-Ends (not (is_retryable code)) _ _ v
                (λ fatal. mark_failed-Done code v (permanent (not-true fatal)) u)
                (λ _. schedule_retry-Done code v u)

  held_after_queue :
      {d : E.database.Db} → Ending E providers w n.id n queued [] d → Under E providers w n.id n d
  held_after_queue e = record { others = e.others; held = go e.outcome }
    where
      go :
          {o : Option Notification}
          → Held n o
            ⊎ ((t : Option ℕ) × (o ≡ some (record (with_status n queued []) { mtime = t })))
          → Held n o
      go (inl h) = h
      go (inr (t, p)) = marked t (unfold with_status in p)

  deliver-Done :
      (provider : BaseProvider E.Outside) (v : World E)
      → Under E providers w n.id n v.db
      → EndsDone (deliver chance n provider) v
  unfolding deliver
  deliver-Done provider v u =
      seq-Ends _ _ v (update_status-Ending E providers w n.id n queued [] v u)
        (λ e t p. Under-Done E providers w n.id n t.db (held_after_queue p))
        λ o t p.
          seq-Ends _ _ t (outside provider.health_check t (held_after_queue p))
            (λ e t h. Under-Done E providers w n.id n t.db h)
            λ healthy t h.
              if-Ends (not healthy) _ _ t (λ _. schedule_retry-Done provider_down t h)
                λ _.
                  seq-Ends _ _ t (outside (provider.send n.recipient n.content) t h)
                    (λ e t h. Under-Done E providers w n.id n t.db h)
                    (λ result t h. settle-Done result t h)
    where
      outside :
          {A : Type 0} (m : Exec E.Outside A) (t : World E)
          → Under E providers w n.id n t.db
          → Ends (λ _ x. Under E providers w n.id n x.db) (on_outside {E = E} m) t
      outside m t h =
          Keeps-Ends _ t (on_outside-frame E (λ d _ _. Under E providers w n.id n d) m) h

  dispatch_found-Done :
      (v : World E)
      → Under E providers w n.id n v.db
      → EndsDone (dispatch_found chance providers (some n)) v
  unfolding dispatch_found dispatch_to
  dispatch_found-Done v u =
      lift-Ends _ _ v (λ e _. Under-Done E providers w n.id n v.db u)
        λ channel found. go channel found (providers channel) refl
    where
      go :
          (channel : NotificationChannel)
          → channel_of_value n.channel ≡ ok channel
          → (p : Option (BaseProvider E.Outside)) → providers channel ≡ p
          → EndsDone (dispatch_to chance n p) v
      go channel found none nobody =
          mark_failed-Done unknown v (no_provider channel found nobody refl) u
      go channel found (some provider) there = deliver-Done provider v u

Done-Dispatched :
    (E : Services) (providers : Providers E.Outside) (w v : World E) (i : ℕ) (n : Notification)
    {d : E.database.Db}
    → ((j : ℕ) → row v j ≡ row w j)
    → row w i ≡ some n
    → n.id ≡ i
    → Done E providers v n.id n d
    → Dispatched E providers w i d
Done-Dispatched E providers w v i n {d} kept e n_id h = record {
  others = λ j ne. h.others j (λ p. ne (sym n_id ∙ p)) ∙ kept j;
  absent = λ gone. absurd (go (sym e ∙ gone));
  progress = λ n' e'.
      let (m, at_id, step) = h.new_row in
      let same_row : n ≡ n' = some-injective n n' (sym e ∙ e') in
      (
        m,
        ap (E.database.table d) (sym n_id) ∙ at_id,
        subst (λ (x : Notification). Progress providers x m) same_row step,
      );
}
  where
    go : some n ≡ none → ⊥
    go p = cc

Same-Dispatched :
    (E : Services) (providers : Providers E.Outside) (w : World E) (i : ℕ) (d : E.database.Db)
    → ((j : ℕ) → E.database.table d j ≡ row w j)
    → Dispatched E providers w i d
Same-Dispatched E providers w i d kept = record {
  others = λ j _. kept j;
  absent = λ gone. kept i ∙ gone;
  progress = λ n e. (n, kept i ∙ e, unchanged refl);
}

pub dispatch-Dispatched :
    (E : Services) (chance : Chance) (providers : Providers E.Outside) (i : ℕ) (w : World E)
    → Dispatched E providers w i (dispatch {E = E} chance providers i w).1.db
unfolding dispatch
dispatch-Dispatched E chance providers i w = whole.at
  where
    go :
        (v : World E) (o : Option Notification)
        → ((j : ℕ) → row v j ≡ row w j)
        → o ≡ row w i
        → Ends (λ _ x. Dispatched E providers w i x.db) (dispatch_found chance providers o) v
    go v none kept e =
        unfold dispatch_found in pure-Ends tt v (Same-Dispatched E providers w i v.db kept)
    go v (some n) kept e =
        let n_id : n.id ≡ i = E.database.table_id i w.db n (sym e) in
        weaken-Ends _ v
          (dispatch_found-Done E providers v n chance v
            (record { others = λ j _. refl; held = fresh (ap (row v) n_id ∙ kept i ∙ sym e) }))
          (λ r x d. Done-Dispatched E providers w v i n kept (sym e) n_id d)

    whole : Ends (λ _ x. Dispatched E providers w i x.db) (dispatch chance providers i) w
    whole =
        seq-Ends _ _ w (get_by_id-Ends i w) (λ e v p. Same-Dispatched E providers w i v.db p.0)
          (λ o v p. go v o p.0 (p.1 o refl))
