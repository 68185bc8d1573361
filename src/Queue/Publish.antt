-- ===== src/Queue/Publish.antt =====
-- What `publish_retry` publishes.
use high_throughput_notifica.Prelude.{
  ℕ, ◌≡◌, refl, ap, ◌∙◌, Bool, true, false, Option, none, some, List, [], ◌∷◌, ◌++◌,
}
use high_throughput_notifica.Exec.{
  Exec, Exception, Result, ok, err, ◌>>=◌, ◌>>◌, gets, raise, try_except,
}
use high_throughput_notifica.Exec.Keeps.{Keeps, Keeps-raise, keeps_rules}
use high_throughput_notifica.Exec.Ends.{Ends, seq-Ends, pure-Ends, try-Ends, Keeps-Ends}
use high_throughput_notifica.Services.{Services, World, Publication, publications, raw, on_broker}
use high_throughput_notifica.Decimal.{str}
use high_throughput_notifica.Queue.{
  retry_queue, retry_exchange, retry_publication, set_rmq, connection_is_down, channel_is_down,
  reconnect, reopen, stored_channel, try_channel, get_rabbitmq_channel, try_publish_retry,
  publish_retry,
}

module _ (E : Services) (ps : List Publication) where
  open E.broker use {Connection, Channel, connect, open_channel, published}

  abbrev Accepted : World E → Type 0
  Accepted w = published w.broker ≡ ps

  on_broker-Accepted :
      {A : Type 0} (m : Exec E.broker.State A)
      → ((s : E.broker.State) → published (m s).1 ≡ published s)
      → Keeps Accepted (on_broker {E = E} m)
  unfolding on_broker
  on_broker-Accepted m same = record { at = λ w h. same w.broker ∙ h }

  connect-Accepted : Keeps Accepted (on_broker {E = E} connect)
  connect-Accepted = on_broker-Accepted _ E.broker.connect_keeps

  open_channel-Accepted : (c : Connection) → Keeps Accepted (on_broker {E = E} (open_channel c))
  open_channel-Accepted c = on_broker-Accepted _ (E.broker.open_channel_keeps c)

  declare_queue-Accepted :
      (h : Channel)
      → Keeps Accepted
          (on_broker {E = E} (E.broker.declare_queue h retry_queue (some retry_exchange)))
  declare_queue-Accepted h = on_broker-Accepted _ (E.broker.declare_queue_keeps h _ _)

  set_rmq-Accepted :
      (c : Option Connection) (h : Option Channel) → Keeps Accepted (set_rmq {E = E} c h)
  unfolding set_rmq
  set_rmq-Accepted c h = record { at = λ w p. p }

  connection_is_down-Accepted :
      (c : Option Connection) → Keeps Accepted (connection_is_down {E = E} c)
  unfolding connection_is_down
  connection_is_down-Accepted none = search keeps_rules
  connection_is_down-Accepted (some c) = Keeps-raise _

  channel_is_down-Accepted : (h : Option Channel) → Keeps Accepted (channel_is_down {E = E} h)
  unfolding channel_is_down
  channel_is_down-Accepted none = search keeps_rules
  channel_is_down-Accepted (some h) = Keeps-raise _

  ruleset accepted_rules = (
    keeps_rules, connect-Accepted, open_channel-Accepted, declare_queue-Accepted, set_rmq-Accepted,
    connection_is_down-Accepted, channel_is_down-Accepted,
  )

  reconnect-Accepted : Keeps Accepted (reconnect {E = E})
  unfolding reconnect
  reconnect-Accepted = search accepted_rules depth 9

  reopen-Accepted : (c : Option Connection) → Keeps Accepted (reopen {E = E} c)
  unfolding reopen
  reopen-Accepted none = search keeps_rules
  reopen-Accepted (some c) = search accepted_rules depth 9

  stored_channel-Accepted : (h : Option Channel) → Keeps Accepted (stored_channel {E = E} h)
  unfolding stored_channel
  stored_channel-Accepted none = search keeps_rules
  stored_channel-Accepted (some h) = search keeps_rules

  try_channel-Accepted : Keeps Accepted (try_channel {E = E})
  unfolding try_channel
  try_channel-Accepted = search (accepted_rules, reconnect-Accepted, reopen-Accepted) depth 12

  get_rabbitmq_channel-Accepted : Keeps Accepted (get_rabbitmq_channel {E = E})
  unfolding get_rabbitmq_channel
  get_rabbitmq_channel-Accepted = search (accepted_rules, try_channel-Accepted) depth 9

-- A persistent message with the identifier, which goes straight to the retry queue and expires after
-- `seconds`.
unfoldable pub timed_message : ℕ → ℕ → Publication
timed_message i seconds = record {
  exchange = "";
  routing_key = "notification.retry";
  message = record {
    body = raw (str i);
    persistent = true;
    expiration = some seconds;
    content_type = none;
  };
}

-- `publish_retry` returned, and if it returned true then one message was added to `ps`, which is that
-- of the identifier and the delay.
pub record Published (E : Services) (ps : List Publication) (i d : ℕ) (r : Result Bool)
    (v : World E) : Type 0 where
  pub returned : (b : Bool) × (r ≡ ok b)
  pub on_true : r ≡ ok true → publications v ≡ ps ++ timed_message i d ∷ []

module _ (E : Services) (i d : ℕ) where
  ok_false≢true : ¬ (◌≡◌ {A = Result Bool} (ok false) (ok true))
  ok_false≢true p = cc

  err≢true : {e : Exception} → ¬ (◌≡◌ {A = Result Bool} (err e) (ok true))
  err≢true p = cc

  publish-Ends :
      (h : E.broker.Channel) (v : World E)
      → Ends
          (λ r x. r ≡ ok tt → publications x ≡ publications v ++ timed_message i d ∷ [])
          (on_broker {E = E} (E.broker.publish h (retry_publication i d)))
          v
  unfolding on_broker retry_publication timed_message
  publish-Ends h v = record { at = E.broker.publish_ok h (timed_message i d) v.broker }

  abbrev OnTrue : World E → Result Bool → World E → Type 0
  OnTrue w r v = r ≡ ok true → publications v ≡ publications w ++ timed_message i d ∷ []

  try_publish_retry-Ends : (w : World E) → Ends (OnTrue w) (try_publish_retry {E = E} i d) w
  unfolding try_publish_retry
  try_publish_retry-Ends w =
      let ps = publications w in
      seq-Ends _ _ w (Keeps-Ends _ w (get_rabbitmq_channel-Accepted E ps) refl)
        (λ e t p b. absurd (err≢true b))
        λ stored t p.
          seq-Ends _ _ t (Keeps-Ends _ t (stored_channel-Accepted E ps stored) p)
            (λ e x q b. absurd (err≢true b))
            λ h x q.
              seq-Ends _ _ x (Keeps-Ends _ x (declare_queue-Accepted E ps h) q)
                (λ e y a b. absurd (err≢true b))
                λ _ y a.
                  seq-Ends _ _ y (publish-Ends h y) (λ e z s b. absurd (err≢true b))
                    λ _ z s.
                      pure-Ends true z (λ _. s refl ∙ ap (λ l. l ++ timed_message i d ∷ []) a)

  publish_retry-Ends :
      (w : World E) → Ends (Published E (publications w) i d) (publish_retry {E = E} i d) w
  unfolding publish_retry
  publish_retry-Ends w =
      try-Ends _ _ w (try_publish_retry-Ends w)
        (λ b t p. record { returned = (b, refl); on_true = p })
        (λ e t p.
          pure-Ends false t
            (record { returned = (false, refl); on_true = λ b. absurd (ok_false≢true b) }))

-- `publish_retry` never raises, whatever the broker does; and when it returns true the broker has
-- accepted one more message: a persistent one with the identifier as its body, which goes to the
-- queue notification.retry and expires after the delay in seconds.
pub publish_retry-Published :
    (E : Services) (i d : ℕ) (w : World E)
    → let (r, v) = publish_retry {E = E} i d w in Published E (publications w) i d r v
publish_retry-Published E i d w = (publish_retry-Ends E i d w).at

-- While a connection is stored, `publish_retry` publishes nothing: it returns false, the broker stays
-- as it is, and the stored connection and channel are forgotten without being closed. The next call,
-- if nothing is stored meanwhile, is one without a connection.
pub publish_retry-stored :
    (E : Services) (i d : ℕ) (w : World E) (c : E.broker.Connection)
    → w.rmq_connection ≡ some c
    → publish_retry {E = E} i d w
      ≡ (ok false, record w { rmq_connection = none; rmq_channel = none })
unfolding publish_retry try_publish_retry get_rabbitmq_channel try_channel connection_is_down
    set_rmq try_except ◌>>=◌ gets raise ◌>>◌
publish_retry-stored E i d w c stored = rw stored refl
