-- ===== src/Publisher/Sent.antt =====
-- What the script publishes.
use high_throughput_notifica.Prelude.{
  ℕ, suc, zero, ◌≡◌, refl, ap, ◌∙◌, String, List, [], ◌∷◌, ◌++◌, ◌==◌, true, some, none,
}
use high_throughput_notifica.Exec.{Exec, Result, ok, ◌>>=◌, ◌>>◌, try_finally}
use high_throughput_notifica.Exec.Ends.{
  Ends, bind-Ends, seq-Ends, lift-Ends, pure-Ends, raise-Ends, if-Ends, weaken-Ends, finally-Ends,
}
use high_throughput_notifica.Exec.Results.{ok≢err}
use high_throughput_notifica.Model.Json.{Fields}
use high_throughput_notifica.Publisher.Events.{Sample, load_event}
use high_throughput_notifica.Publisher.{
  Draws, event_publication, publish_event, publish_samples, sample_session, run_sample_events,
  publish_load, rate_of, load_session, run_load_test,
}
use high_throughput_notifica.Services.{Broker, Publication, dumped, topic}

-- What the consumer of the exchange can rely on: a persistent JSON message.
unfoldable pub json_message : String → Fields → Publication
json_message routing_key event = record {
  exchange = "notification.exchange";
  routing_key = routing_key;
  message = record {
    body = dumped event;
    persistent = true;
    expiration = none;
    content_type = some "application/json";
  };
}

-- The messages of the events of a list, and of the rounds `i`, `i + 1`, … of a load test.
unfoldable pub sample_publications : List Sample → List Publication
sample_publications [] = []
sample_publications (s ∷ rest) = json_message s.routing_key s.event ∷ sample_publications rest

unfoldable pub load_publications : Draws → (i count : ℕ) → List Publication
load_publications draws i zero = []
load_publications draws i (suc count) =
    json_message "order.created" (load_event i (draws.hex i) (draws.token i))
    ∷ load_publications draws (suc i) count

append-nil : (l : List Publication) → l ≡ l ++ []
append-nil [] = refl
append-nil (x ∷ l) = ap (λ m. x ∷ m) (append-nil l)

append-snoc :
    (l : List Publication) (x : Publication) (m : List Publication)
    → (l ++ x ∷ []) ++ m ≡ l ++ x ∷ m
append-snoc [] x m = refl
append-snoc (y ∷ l) x m = ap (λ k. y ∷ k) (append-snoc l x m)

module _ (B : Broker) where
  open B use {Channel, Connection, State, published}

  -- If the run returns, the broker has accepted these messages more, in this order.
  abbrev Adds : State → List Publication → Result (Unit {0}) → State → Type 0
  Adds s ps r t = (a : Unit {0}) → r ≡ ok a → published t ≡ published s ++ ps

  publish_event-Ends :
      (c : Channel) (key : String) (e : Fields) (s : State)
      → Ends (Adds s (json_message key e ∷ [])) (publish_event B c key e) s
  unfolding publish_event event_publication json_message
  publish_event-Ends c key e s =
      bind-Ends _ _ s (λ x raised a b. absurd (ok≢err b))
        λ _ done.
          lift-Ends _ _ _ (λ x raised a b. absurd (ok≢err b))
            (λ _ _. pure-Ends tt _ (λ a b. B.publish_ok c (json_message key e) s done))

  -- One message, then the others.
  then-Adds :
      (s t : State) (p : Publication) (ps : List Publication) (rest : Exec State Unit)
      → published t ≡ published s ++ p ∷ []
      → Ends (Adds t ps) rest t
      → Ends (Adds s (p ∷ ps)) rest t
  then-Adds s t p ps rest first more =
      weaken-Ends _ t more
        λ r u h a b. h a b ∙ ap (λ l. l ++ ps) first ∙ append-snoc (published s) p ps

  publish_samples-Ends :
      (c : Channel) (samples : List Sample) (s : State)
      → Ends (Adds s (sample_publications samples)) (publish_samples B c samples) s
  unfolding publish_samples sample_publications
  publish_samples-Ends c [] s = pure-Ends tt s (λ a b. append-nil (published s))
  publish_samples-Ends c (x ∷ rest) s =
      seq-Ends _ _ s (publish_event-Ends c x.routing_key x.event s) (λ e t h a b. absurd (ok≢err b))
        (λ u t h. then-Adds s t _ _ _ (h u refl) (publish_samples-Ends c rest t))

  publish_load-Ends :
      (draws : Draws) (c : Channel) (i count : ℕ) (s : State)
      → Ends (Adds s (load_publications draws i count)) (publish_load B draws c i count) s
  unfolding publish_load load_publications
  publish_load-Ends draws c i zero s = pure-Ends tt s (λ a b. append-nil (published s))
  publish_load-Ends draws c i (suc count) s =
      seq-Ends _ _ s (publish_event-Ends c _ _ s) (λ e t h a b. absurd (ok≢err b))
        (λ u t h. then-Adds s t _ _ _ (h u refl) (publish_load-Ends draws c (suc i) count t))

  -- A session on a new channel with a declared exchange adds what it does after that.
  session-Ends :
      (ps : List Publication) (rest : Channel → Exec State Unit) (x : String)
      (connection : Connection) (s : State)
      → ((c : Channel) (t : State) → Ends (Adds t ps) (rest c) t)
      → Ends
          (Adds s ps)
          (do channel ← B.open_channel connection; B.declare_exchange channel x topic; rest channel)
          s
  session-Ends ps rest x connection s h =
      bind-Ends _ _ s (λ e raised a b. absurd (ok≢err b))
        λ c _.
          bind-Ends _ _ _ (λ e raised a b. absurd (ok≢err b))
            λ _ _. weaken-Ends _ _ (h c _) λ r u k a b.
              k a b
              ∙ ap (λ l. l ++ ps)
                  (B.declare_exchange_keeps c x topic _ ∙ B.open_channel_keeps connection s)

  closing-Ends :
      (ps : List Publication) (session : Connection → Exec State Unit) (s : State)
      → ((c : Connection) (t : State) → Ends (Adds t ps) (session c) t)
      → Ends
          (Adds s ps)
          (do connection ← B.connect; try_finally (session connection) (B.close connection))
          s
  closing-Ends ps session s h =
      bind-Ends _ _ s (λ e raised a b. absurd (ok≢err b))
        λ c _.
          finally-Ends {P = λ _ t. published t ≡ published s ++ ps} _ _ _
            (weaken-Ends _ _ (h c _) λ r u k a b. k a b ∙ ap (λ l. l ++ ps) (B.connect_keeps s))
            (λ a t k. record { at = λ _. B.close_keeps c t ∙ k })

  run_sample_events-Ends :
      (samples : List Sample) (s : State)
      → Ends (Adds s (sample_publications samples)) (run_sample_events B samples) s
  unfolding run_sample_events sample_session
  run_sample_events-Ends samples s =
      closing-Ends _ _ s (λ c t. session-Ends _ _ _ c t (λ h u. publish_samples-Ends h samples u))

  run_load_test-Ends :
      (draws : Draws) (count elapsed : ℕ) (s : State)
      → Ends (Adds s (load_publications draws 0 count)) (run_load_test B draws count elapsed) s
  unfolding run_load_test load_session rate_of
  run_load_test-Ends draws count elapsed s = closing-Ends _ _ s λ c t. session-Ends _ _ _ c t λ h u.
      seq-Ends _ _ u (publish_load-Ends draws h 0 count u) (λ e x k a b. absurd (ok≢err b))
        λ _ x k.
          if-Ends (elapsed == 0) _ _ x (λ _. raise-Ends _ x (λ a b. absurd (ok≢err b)))
            (λ _. pure-Ends tt x (λ a b. k tt refl))

-- When the script returns, the broker has accepted one message for each sample event, in the order
-- of the list, and no other one. Each is a persistent JSON message to notification.exchange, which
-- carries the routing key and the document of its event.
pub run_sample_events-Sent :
    (B : Broker) (samples : List Sample) (s : B.State)
    → (run_sample_events B samples s).0 ≡ ok tt
    → B.published (run_sample_events B samples s).1 ≡ B.published s ++ sample_publications samples
run_sample_events-Sent B samples s done = (run_sample_events-Ends B samples s).at tt done

-- When a load test returns, the broker has accepted exactly its `count` messages, those of the rounds
-- 0, 1, … in their order: persistent JSON messages to notification.exchange with the routing key
-- order.created and the document of the round.
pub run_load_test-Sent :
    (B : Broker) (draws : Draws) (count elapsed : ℕ) (s : B.State)
    → (run_load_test B draws count elapsed s).0 ≡ ok tt
    → B.published (run_load_test B draws count elapsed s).1
      ≡ B.published s ++ load_publications draws 0 count
run_load_test-Sent B draws count elapsed s done =
    (run_load_test-Ends B draws count elapsed s).at tt done
