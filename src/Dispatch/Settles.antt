-- ===== src/Dispatch/Settles.antt =====
-- Dispatches of one notification in a row, with providers that answer.
use high_throughput_notifica.Prelude.{
  ℕ, zero, suc, ◌+◌, ◌-◌, ◌≤◌, ◌≡◌, refl, ap, ◌∙◌, Bool-cases, some, ◌&&◌, leb, ◌⊎◌, inl, inr,
  arith,
}
use high_throughput_notifica.Exec.{ok}
use high_throughput_notifica.Model.Enums.{
  sent, failed, NotificationChannel, EventType, status_value, event_of_value, channel_of_value,
  is_retryable,
}
use high_throughput_notifica.Model.Row.{Notification}
use high_throughput_notifica.Services.{Services, Reliable, World}
use high_throughput_notifica.Repository.Table.{row}
use high_throughput_notifica.Retry.{retry_config}
use high_throughput_notifica.Provider.{BaseProvider, Providers}
use high_throughput_notifica.Dispatch.{Chance, dispatch}
use high_throughput_notifica.Dispatch.Attempt.{
  Attempt, delivered, failing, Attempted, after_attempt,
}
use high_throughput_notifica.Dispatch.Outcome.{dispatch-Outcome}

-- The world after `k` dispatches of the notification `i`, the j-th of them by `chances j` and with
-- `providers j`.
unfoldable pub dispatches :
    {E : Services} (chances : ℕ → Chance)
    → (providers : ℕ → Providers E.Outside) → (i k : ℕ) → World E
    → World E
dispatches chances providers i zero w = w
dispatches {E} chances providers i (suc k) w =
    dispatches (λ j. chances (suc j)) (λ j. providers (suc j)) i k
      (dispatch (chances 0) (providers 0) i w).1

-- No retry is waited for.
abbrev pub Ended : Notification → Type 0
Ended n = (n.status ≡ status_value sent) ⊎ (n.status ≡ status_value failed)

-- A provider that keeps the contract of its interface: it answers, whatever it is asked.
abbrev pub Answers : {S : Type 0} → BaseProvider S → Type 0
Answers {S} provider =
    (n : Notification) (s : S) → (a : Attempt) × (s' : S) × Attempted provider n s a s'

-- `m` has one retry more than `n`, and that is allowed.
abbrev Again : (n m : Notification) → ℕ → Type 0
Again n m max = (n.retry_count + 1 ≤ max) × (m.retry_count ≡ n.retry_count + 1)

module _ (chance : Chance) (event : EventType) (n : Notification) where
  after_attempt-Again :
      (a : Attempt)
      → Ended (after_attempt chance event n a)
        ⊎ Again n (after_attempt chance event n a) (retry_config event).max_retries
  unfolding after_attempt
  after_attempt-Again (delivered external_id) = inl (inl refl)
  after_attempt-Again (failing code) =
      elim (Bool-cases
        (is_retryable code && leb (n.retry_count + 1) (retry_config event).max_retries)) [
          | inl again ↦ inr (rw again (ground arith, refl))
          | inr over ↦ inl (rw over (inr refl))
        ]

  after_attempt-kind :
      (a : Attempt)
      → ((after_attempt chance event n a).channel ≡ n.channel)
        × ((after_attempt chance event n a).event_type ≡ n.event_type)
  unfolding after_attempt
  after_attempt-kind (delivered external_id) = (refl, refl)
  after_attempt-kind (failing code) =
      elim (Bool-cases
        (is_retryable code && leb (n.retry_count + 1) (retry_config event).max_retries)) [
          | inl again ↦ rw again (refl, refl)
          | inr over ↦ rw over (refl, refl)
        ]

-- The channel has a provider that answers.
abbrev pub Served : {S : Type 0} → Providers S → NotificationChannel → Type 0
Served {S} providers channel =
    (provider : BaseProvider S) × (providers channel ≡ some provider) × Answers provider

module _ (E : Services) (R : Reliable E.database) (channel : NotificationChannel)
    (event : EventType) (i : ℕ) where
  -- The row that a dispatch of `n` leaves.
  record Step (n : Notification) (v : World E) : Type 0 where
    next : Notification
    now : row v i ≡ some next
    next_channel : channel_of_value next.channel ≡ ok channel
    next_event : event_of_value next.event_type ≡ ok event
    either : Ended next ⊎ Again n next (retry_config event).max_retries

  step :
      (chance : Chance) (providers : Providers E.Outside) (w : World E) (n : Notification)
      → Served providers channel
      → row w i ≡ some n
      → channel_of_value n.channel ≡ ok channel
      → event_of_value n.event_type ≡ ok event
      → Step n (dispatch chance providers i w).1
  step chance providers w n served here is_channel is_event =
      let (provider, has, answers) = served in
      let (a, s', try) = answers n w.outside in
      let done =
        dispatch-Outcome E R chance providers i w n channel event provider a s' here is_channel
          is_event has try in
      let kind = after_attempt-kind chance event n a in
      record {
        next = record (after_attempt chance event n a) { mtime = done.at_row.0 };
        now = done.at_row.1;
        next_channel = ap channel_of_value kind.0 ∙ is_channel;
        next_event = ap event_of_value kind.1 ∙ is_event;
        either = after_attempt-Again chance event n a;
      }

  Within :
      (m : ℕ) (chances : ℕ → Chance) (providers : ℕ → Providers E.Outside) (w : World E) → Type 0
  Within m chances providers w =
      (k : ℕ) × (k ≤ m + 1)
      × (t : Notification) × (row (dispatches chances providers i k w) i ≡ some t)
      × Ended t

  -- At most `m + 1` dispatches, of which each but the last counts one retry.
  within :
      (m : ℕ) (chances : ℕ → Chance) (providers : ℕ → Providers E.Outside) (w : World E)
      (n : Notification)
      → ((k : ℕ) → Served (providers k) channel)
      → row w i ≡ some n
      → channel_of_value n.channel ≡ ok channel
      → event_of_value n.event_type ≡ ok event
      → (retry_config event).max_retries ≤ n.retry_count + m
      → Within m chances providers w
  unfolding dispatches Within
  within zero chances providers w n served here is_channel is_event room =
      let s = step (chances 0) (providers 0) w n (served 0) here is_channel is_event in
      elim s.either [
        | inl ended ↦ (1, omega arith, s.next, s.now, ended)
        | inr again ↦ absurd (let r = again.0 in omega arith)
      ]
  within (suc m) chances providers w n served here is_channel is_event room =
      let s = step (chances 0) (providers 0) w n (served 0) here is_channel is_event in
      elim s.either [
        | inl ended ↦ (1, omega arith, s.next, s.now, ended)
        | inr again ↦
            let c = again.1 in
            let (k, few, t, there, ended) =
              within m (λ j. chances (suc j)) (λ j. providers (suc j)) _ s.next
                (λ j. served (suc j)) s.now s.next_channel s.next_event (omega arith) in
            (suc k, omega arith, t, there, ended)
      ]

-- On a database that answers, with a provider of the channel that answers each time, dispatches of a
-- notification of a known channel and event end it: after at most as many as the retries that its
-- event still allows, and one, the row says that it is sent or failed, whatever the provider answered.
pub dispatches-Ended :
    (E : Services) (R : Reliable E.database) (chances : ℕ → Chance)
    (providers : ℕ → Providers E.Outside) (i : ℕ) (w : World E) (n : Notification)
    (channel : NotificationChannel) (event : EventType)
    → ((k : ℕ) → Served (providers k) channel)
    → row w i ≡ some n
    → channel_of_value n.channel ≡ ok channel
    → event_of_value n.event_type ≡ ok event
    → (k : ℕ) × (k ≤ (retry_config event).max_retries - n.retry_count + 1)
      × (t : Notification) × (row (dispatches chances providers i k w) i ≡ some t)
      × Ended t
unfolding Within
dispatches-Ended E R chances providers i w n channel event served here is_channel is_event =
    within E R channel event i ((retry_config event).max_retries - n.retry_count) chances providers
      w n served here is_channel is_event (omega arith)
