-- ===== src/Handler/Started.antt =====
-- What stands on the broker when a start of the handler has come to its end.
use high_throughput_notifica.Prelude.{
  false≢true, ◌≡◌, refl, sym, ◌∙◌, String, true, false, Option, none, some, List, [], ◌∷◌, All,
}
use high_throughput_notifica.Exec.{Exec, Result, ok, pure, ◌>>=◌}
use high_throughput_notifica.Exec.Ends.{Ends, bind-Ends, seq-Ends, pure-Ends, try-Ends}
use high_throughput_notifica.Exec.Results.{ok≢err}
use high_throughput_notifica.Services.{
  Broker, Topology, ExchangeType, topic, fanout, Fact, has_exchange, has_queue, bound, consumed,
}
use high_throughput_notifica.Handler.Start.{
  exchange_name, retry_exchange, queue_name, retry_queue, retry_result_queue, routing_keys,
  Callback, on_new_event, on_retry_event, Consumer, with_broker, set_connection, set_channel,
  set_running, bind_all, declare_all, set_up, start,
}

-- The exchanges, queues, bindings and consumers of a handler that runs, the latest first.
abbrev pub wiring : List (Fact Callback)
wiring =
    consumed retry_result_queue on_retry_event
    ∷ consumed queue_name on_new_event
    ∷ bound retry_result_queue retry_exchange none
    ∷ has_queue retry_result_queue none
    ∷ has_queue retry_queue (some retry_exchange)
    ∷ bound queue_name exchange_name (some "shipping.*")
    ∷ bound queue_name exchange_name (some "payment.*")
    ∷ bound queue_name exchange_name (some "order.*")
    ∷ has_queue queue_name none
    ∷ has_exchange retry_exchange fanout
    ∷ has_exchange exchange_name topic
    ∷ []

module _ {B : Broker} (T : Topology B Callback) where
  pub record Stand (h : Consumer B) (fs : List (Fact Callback)) : Type 0 where
    pub all : All (λ (f : Fact Callback). T.Stands h.broker f) fs

  -- A call that returns adds a fact, and keeps the others.
  record Adds (m : Exec B.State (Unit {0})) (f : Fact Callback) : Type 0 where
    adds : (s : B.State) → (m s).0 ≡ ok tt → T.Stands (m s).1 f
    keeps : (s : B.State) (a : Fact Callback) → T.Stands s a → T.Stands (m s).1 a

  -- What has been declared so far; the handler does not run yet.
  abbrev Post : List (Fact Callback) → Result (Unit {0}) → Consumer B → Type 0
  Post fs r v = (v.running ≡ false) × ((a : Unit {0}) → r ≡ ok a → Stand v fs)

  All-keeps :
      (m : Exec B.State (Unit {0})) (f : Fact Callback) (s : B.State)
      → Adds m f
      → (fs : List (Fact Callback)) → All (λ (a : Fact Callback). T.Stands s a) fs
      → All (λ (a : Fact Callback). T.Stands (m s).1 a) fs
  All-keeps m f s d [] h = tt
  All-keeps m f s d (a ∷ fs) h = (d.keeps s a h.0, All-keeps m f s d fs h.1)

  one-Ends :
      (m : Exec B.State (Unit {0})) (f : Fact Callback) (fs : List (Fact Callback)) (h : Consumer B)
      → Adds m f
      → h.running ≡ false
      → Stand h fs
      → Ends (Post (f ∷ fs)) (with_broker m) h
  unfolding with_broker
  one-Ends m f fs h d idle stand = record {
    at = (
      idle,
      λ a done. record { all = (d.adds h.broker done, All-keeps m f h.broker d fs stand.all) },
    );
  }

  then-Ends :
      (m : Exec B.State (Unit {0})) (f : Fact Callback) (fs gs : List (Fact Callback))
      (rest : Exec (Consumer B) (Unit {0})) (h : Consumer B)
      → Adds m f
      → h.running ≡ false
      → Stand h fs
      → ((v : Consumer B) → v.running ≡ false → Stand v (f ∷ fs) → Ends (Post gs) rest v)
      → Ends (Post gs) (with_broker m >>= (λ _. rest)) h
  then-Ends m f fs gs rest h d idle stand go =
      seq-Ends _ _ h (one-Ends m f fs h d idle stand) (λ e v q. (q.0, λ a b. absurd (ok≢err b)))
        λ a v q. go v q.0 (q.1 a refl)

  open B use {Channel}

  exchange-Adds :
      (c : Channel) (x : String) (t : ExchangeType)
      → Adds (B.declare_exchange c x t) (has_exchange x t)
  exchange-Adds c x t = record { adds = T.exchange_ok c x t; keeps = T.exchange_keeps c x t }

  queue-Adds :
      (c : Channel) (q : String) (d : Option String) → Adds (B.declare_queue c q d) (has_queue q d)
  queue-Adds c q d = record { adds = T.queue_ok c q d; keeps = T.queue_keeps c q d }

  bind_queue-Adds : (c : Channel) (q x : String) → Adds (B.bind_queue c q x) (bound q x none)
  bind_queue-Adds c q x = record { adds = T.bind_queue_ok c q x; keeps = T.bind_queue_keeps c q x }

  bind-Adds : (c : Channel) (q x k : String) → Adds (T.bind c q x k) (bound q x (some k))
  bind-Adds c q x k = record { adds = T.bind_ok c q x k; keeps = T.bind_keeps c q x k }

  consume-Adds : (c : Channel) (q : String) (f : Callback) → Adds (T.consume c q f) (consumed q f)
  consume-Adds c q f = record { adds = T.consume_ok c q f; keeps = T.consume_keeps c q f }

  idle-Ends :
      {A : Type 0} (m : Exec B.State A) (h : Consumer B)
      → h.running ≡ false
      → Ends (λ r v. v.running ≡ false) (with_broker m) h
  unfolding with_broker
  idle-Ends m h idle = record { at = idle }

  bind_all-Ends :
      (c : Channel) (fs : List (Fact Callback)) (h : Consumer B)
      → h.running ≡ false
      → Stand h fs
      → Ends
          (Post (
            bound queue_name exchange_name (some "shipping.*")
            ∷ bound queue_name exchange_name (some "payment.*")
            ∷ bound queue_name exchange_name (some "order.*")
            ∷ fs))
          (bind_all T c routing_keys)
          h
  unfolding bind_all
  bind_all-Ends c fs h idle stand = then-Ends _ _ fs _ _ h (bind-Adds c _ _ _) idle stand λ v i s.
      then-Ends _ _ _ _ _ v (bind-Adds c _ _ _) i s
        λ v i s. then-Ends _ _ _ _ _ v (bind-Adds c _ _ _) i s λ v i s. pure-Ends _ v (i, λ a b. s)

  declare_all-Ends :
      (c : Channel) (h : Consumer B) → h.running ≡ false → Ends (Post wiring) (declare_all T c) h
  unfolding declare_all
  declare_all-Ends c h idle =
      seq-Ends _ _ h (idle-Ends _ h idle) (λ e v q. (q, λ a b. absurd (ok≢err b)))
        λ _ v i.
          then-Ends _ _ [] _ _ v (exchange-Adds c _ _) i (record { all = tt })
            λ v i s. then-Ends _ _ _ _ _ v (exchange-Adds c _ _) i s λ v i s.
              then-Ends _ _ _ _ _ v (queue-Adds c _ _) i s λ v i s.
                seq-Ends _ _ v (bind_all-Ends c _ v i s) (λ e v q. (q.0, λ a b. absurd (ok≢err b)))
                  λ a v q. then-Ends _ _ _ _ _ v (queue-Adds c _ _) q.0 (q.1 a refl) λ v i s.
                    then-Ends _ _ _ _ _ v (queue-Adds c _ _) i s λ v i s.
                      then-Ends _ _ _ _ _ v (bind_queue-Adds c _ _) i s λ v i s.
                        then-Ends _ _ _ _ _ v (consume-Adds c _ _) i s
                          λ v i s. one-Ends _ _ _ v (consume-Adds c _ _) i s

  set_up-Ends :
      (h : Consumer B)
      → h.running ≡ false
      → Ends (λ r v. v.running ≡ true → Stand v wiring) (set_up T) h
  unfolding set_up set_connection set_channel set_running pure
  set_up-Ends h idle =
      seq-Ends _ _ h (idle-Ends _ h idle) (λ e v q p. absurd (false≢true (sym q ∙ p)))
        λ c v i.
          bind-Ends _ _ v (λ e raised p. absurd (false≢true (sym i ∙ p)))
            λ _ _.
              seq-Ends _ _ _ (idle-Ends _ _ i) (λ e v q p. absurd (false≢true (sym q ∙ p)))
                λ c v i.
                  bind-Ends _ _ v (λ e raised p. absurd (false≢true (sym i ∙ p)))
                    λ _ _.
                      seq-Ends _ _ _ (declare_all-Ends c _ i)
                        (λ e v q p. absurd (false≢true (sym q.0 ∙ p)))
                        λ a v q. record { at = λ p. record { all = (q.1 a refl).all } }

  pub start-Ends :
      (h : Consumer B)
      → h.running ≡ false
      → Ends (λ r v. (r ≡ ok tt) × (v.running ≡ true → Stand v wiring)) (start T) h
  unfolding start
  start-Ends h idle =
      try-Ends _ _ h (set_up-Ends h idle) (λ a t q. (refl, q)) λ e t q. pure-Ends tt t (refl, q)
