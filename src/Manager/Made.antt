-- ===== src/Manager/Made.antt =====
-- What a round of the loop over the channels makes.
use Prim.Native.String.{◌++◌ as text_append}
use high_throughput_notifica.Model.Json.{Json, object, end, get}
use mathlib.Core.Option.{some-injective}
use high_throughput_notifica.Prelude.{
  ℕ, ◌≡◌, refl, sym, ap, ◌∙◌, String, List, [], ◌∷◌, ◌++◌, Option, none, some, ==_refl, ◌⊎◌, inl,
  inr,
}
use high_throughput_notifica.Exec.{Exception, integrity_error, Result, ok}
use high_throughput_notifica.Exec.Ends.{
  Ends, bind-Ends, seq-Ends, lift-Ends, pure-Ends, raise-Ends, try-Ends, weaken-Ends, Keeps-Ends,
}
use high_throughput_notifica.Exec.Results.{ok≢err, ok-injective}
use high_throughput_notifica.Model.Enums.{NotificationChannel, channel_value, status_value, pending}
use high_throughput_notifica.Model.Channels.{channel_recipient_field}
use high_throughput_notifica.Model.Names.{channel_name}
use high_throughput_notifica.Model.Row.{Notification}
use high_throughput_notifica.Services.{Services, World, new, on_db}
use high_throughput_notifica.Repository.{create}
use high_throughput_notifica.Repository.Table.{row}
use high_throughput_notifica.Request.{
  NotificationCreate, recipient_value, source_service_as_int, event_type_as_int, priority_as_int,
}
use high_throughput_notifica.Manager.{
  new_notification, channel_key, channel_content, or_empty, insert_for, create_and_enqueue,
  expire_all, skip_duplicate, create_channel,
}
use high_throughput_notifica.Queue.Frame.{enqueue-frame}

-- `n` is the pending notification of a channel that the request describes, with a key of its own.
pub record Made (p : NotificationCreate) (channel : NotificationChannel) (n : Notification)
    : Type 0 where
  pub source : ℕ
  pub event : ℕ
  pub priority : ℕ
  pub recipient : String
  pub content : Json
  pub ctime : ℕ
  pub source_ok : source_service_as_int p ≡ ok source
  pub event_ok : event_type_as_int p ≡ ok event
  pub priority_ok : priority_as_int p ≡ ok priority
  pub recipient_ok : recipient_value p.recipient (channel_recipient_field channel) ≡ some recipient
  -- the content of the channel, or an empty object
  pub content_ok :
      (get (channel_name channel) p.content ≡ some content)
      ⊎ ((get (channel_name channel) p.content ≡ none) × (content ≡ object end))
  pub fields : n ≡ record {
    id = n.id;
    idempotency_key = text_append p.idempotency_key (text_append "-" (channel_name channel));
    source_service = source;
    event_type = event;
    channel = channel_value channel;
    recipient = recipient;
    priority = priority;
    status = status_value pending;
    error_code = none;
    retry_count = 0;
    next_retry_time = none;
    external_id = none;
    content = content;
    ctime = some ctime;
    mtime = none;
    stime = none;
  }

-- The notifications that were made for the channels of a list, at most one each and in their order,
-- each of them stored.
pub data MadeFor {E : Services} (p : NotificationCreate) (v : World E)
    : List NotificationChannel → List Notification → Type 0 where
  no_channels : MadeFor p v [] []
  skipped :
      {c : NotificationChannel} {cs : List NotificationChannel} {ns : List Notification}
      → MadeFor p v cs ns
      → MadeFor p v (c ∷ cs) ns
  made :
      {c : NotificationChannel} {cs : List NotificationChannel} {n : Notification}
      {ns : List Notification}
      → Made p c n
      → row v n.id ≡ some n
      → MadeFor p v cs ns
      → MadeFor p v (c ∷ cs) (n ∷ ns)

content_of : (o : Option Json) → (o ≡ some (or_empty o)) ⊎ ((o ≡ none) × (or_empty o ≡ object end))
content_of none = inr (refl, refl)
content_of (some value) = inl refl

module _ (E : Services) where
  -- A stored row is the new one with its identifier and the time of the INSERT.
  create-Ends :
      (m : Notification) (w : World E)
      → Ends
          (λ r v.
            (n : Notification)
            → r ≡ ok n
            → (row v n.id ≡ some n) × ((t : ℕ) × (n ≡ record m { id = n.id; ctime = some t })))
          (create {E = E} m)
          w
  unfolding create on_db
  create-Ends m w =
      bind-Ends _ _ w (λ e raised n b. absurd (ok≢err b))
        λ i committed. record {
          at = λ n done. (stored i n committed done, as_given i n committed done);
        }
    where
      db : E.database.Db
      db = (E.database.commit (new m) w.db).1

      inserted : ℕ → Notification
      inserted i = record m { id = i; ctime = some (E.database.now w.db) }

      is_inserted :
          (i : ℕ) (n : Notification)
          → (E.database.commit (new m) w.db).0 ≡ ok i
          → (E.database.refresh i db).0 ≡ ok n
          → n ≡ inserted i
      is_inserted i n committed done =
          let at_key = E.database.new_ok m w.db i i committed in
          some-injective n (inserted i)
            (sym (E.database.refresh_ok i db n done) ∙ (rw (==_refl i) at at_key))

      stored :
          (i : ℕ) (n : Notification)
          → (E.database.commit (new m) w.db).0 ≡ ok i
          → (E.database.refresh i db).0 ≡ ok n
          → E.database.table (E.database.refresh i db).1 n.id ≡ some n
      stored i n committed done =
          E.database.refresh_keeps i n.id db
          ∙ ap (λ (k : Notification). E.database.table db k.id) (is_inserted i n committed done)
          ∙ E.database.refresh_ok i db n done

      as_given :
          (i : ℕ) (n : Notification)
          → (E.database.commit (new m) w.db).0 ≡ ok i
          → (E.database.refresh i db).0 ≡ ok n
          → (t : ℕ) × (n ≡ record m { id = n.id; ctime = some t })
      as_given i n committed done =
          let e = is_inserted i n committed done in
          (E.database.now w.db, e ∙ ap inserted (sym (ap (λ (k : Notification). k.id) e)))

module _ (E : Services) (p : NotificationCreate) where
  -- What a round of the loop did: nothing, or a notification at the end of the list.
  pub data Round (c : NotificationChannel) (created l : List Notification) (v : World E)
      : Type 0 where
    nothing : l ≡ created → Round c created l v
    added :
        (n : Notification)
        → l ≡ created ++ n ∷ []
        → Made p c n
        → row v n.id ≡ some n
        → Round c created l v

  abbrev pub AfterRound :
      NotificationChannel → List Notification → Result (List Notification) → World E → Type 0
  AfterRound c created r v = (l : List Notification) → r ≡ ok l → Round c created l v

  insert_for-Ends :
      (c : NotificationChannel) (s e q : ℕ) (o : Option String) (w : World E)
      → source_service_as_int p ≡ ok s
      → event_type_as_int p ≡ ok e
      → priority_as_int p ≡ ok q
      → recipient_value p.recipient (channel_recipient_field c) ≡ o
      → Ends
          (λ r v. (n : Notification) → r ≡ ok n → (row v n.id ≡ some n) × Made p c n)
          (insert_for {E = E} p c s e q o)
          w
  unfolding insert_for new_notification channel_key channel_content
  insert_for-Ends c s e q none w is_s is_e is_q is_o =
      raise-Ends integrity_error w (λ n b. absurd (ok≢err b))
  insert_for-Ends c s e q (some to) w is_s is_e is_q is_o =
      weaken-Ends _ w (create-Ends E (new_notification p c s e q to) w) λ r v h n b.
        let (here, (t, given)) = h n b in
        (
          here,
          record {
            source = s;
            event = e;
            priority = q;
            recipient = to;
            ctime = t;
            source_ok = is_s;
            event_ok = is_e;
            priority_ok = is_q;
            recipient_ok = is_o;
            content = channel_content p c;
            content_ok = content_of (get (channel_name c) p.content);
            fields = given;
          },
        )

  create_and_enqueue-Ends :
      (t : ℕ) (c : NotificationChannel) (s e q : ℕ) (created : List Notification) (w : World E)
      → source_service_as_int p ≡ ok s
      → event_type_as_int p ≡ ok e
      → priority_as_int p ≡ ok q
      → Ends (AfterRound c created) (create_and_enqueue {E = E} t p c s e q created) w
  unfolding create_and_enqueue
  create_and_enqueue-Ends t c s e q created w is_s is_e is_q =
      seq-Ends _ _ w (insert_for-Ends c s e q _ w is_s is_e is_q refl)
        (λ f v h l b. absurd (ok≢err b))
        λ n v h.
          let (here, is_made) = h n refl in
          seq-Ends _ _ v
            (Keeps-Ends _ v
              (enqueue-frame E (λ d b o. E.database.table d n.id ≡ some n) t n.id n.priority) here)
            (λ f x k l b. absurd (ok≢err b))
            λ _ x k. pure-Ends _ x (λ l b. added n (sym (ok-injective b)) is_made k)

  skip_duplicate-Ends :
      (c : NotificationChannel) (created : List Notification) (e : Exception) (w : World E)
      → Ends (AfterRound c created) (skip_duplicate {E = E} created e) w
  unfolding skip_duplicate expire_all
  skip_duplicate-Ends c created integrity_error w =
      bind-Ends _ _ w (λ f raised l b. absurd (ok≢err b))
        (λ _ _.
          bind-Ends _ _ _ (λ f raised l b. absurd (ok≢err b))
            (λ _ _. pure-Ends created _ (λ l b. nothing (sym (ok-injective b)))))
  skip_duplicate-Ends c created e w = raise-Ends _ w (λ l b. absurd (ok≢err b))

  pub create_channel-Ends :
      (t : ℕ) (c : NotificationChannel) (created : List Notification) (w : World E)
      → Ends (AfterRound c created) (create_channel {E = E} t p c created) w
  unfolding create_channel
  create_channel-Ends t c created w =
      lift-Ends _ _ w (λ f raised l b. absurd (ok≢err b))
        λ s is_s.
          lift-Ends _ _ w (λ f raised l b. absurd (ok≢err b))
            λ e is_e.
              lift-Ends _ _ w (λ f raised l b. absurd (ok≢err b))
                λ q is_q.
                  try-Ends _ _ w (create_and_enqueue-Ends t c s e q created w is_s is_e is_q)
                    (λ l x h. h) (λ f x h. skip_duplicate-Ends c created f x)
