-- ===== src/System/Typed.antt =====
-- The enumeration columns of the stored notifications, over a run of the program.
use high_throughput_notifica.Prelude.{
  some_eq, none≢some, ℕ, ◌≡◌, refl, sym, ap, ◌∙◌, subst, String, Option, some, ◌⊎◌, inl, inr,
}
use high_throughput_notifica.Exec.{Result, ok, err}
use high_throughput_notifica.Exec.Results.{ok-injective, ok≢err}
use high_throughput_notifica.Model.Enums.{
  NotificationStatus, pending, queued, sent, failed, retrying, status_value, status_of_value,
  NotificationChannel, channel_of_value, channel_of_value-channel_value, NotificationPriority,
  critical, high, medium, low, priority_value, priority_of_value, SourceService, order, payment,
  shipping, source_value, source_of_value, EventType, event_of_value, event_of_value-event_value,
  NotificationErrorCode, error_value, error_of_value, error_of_value-error_value,
}
use high_throughput_notifica.Model.Row.{Notification}
use high_throughput_notifica.Model.Repr.{repr_text, repr}
use high_throughput_notifica.Services.{Services, World}
use high_throughput_notifica.Request.{
  NotificationCreate, source_service_as_int, event_type_as_int, priority_as_int, ◌>>=◌,
}
use high_throughput_notifica.Manager.{new_notification}
use high_throughput_notifica.Manager.Inserts.{Drafted, drafted}
use high_throughput_notifica.Manager.Every.{Every, Every-InsertSafe}
use high_throughput_notifica.Provider.{Providers}
use high_throughput_notifica.Dispatch.Lifecycle.{
  Progress, unchanged, marked_queued, marked_sent, marked_failed, marked_retrying,
}
use high_throughput_notifica.System.{Steps, done, then_}
use high_throughput_notifica.System.Rows.{Rewritten-Every, Step-Rows}
use high_throughput_notifica.System.Requeued.{
  Requeued, kept, requeued, retry_notification-Rewritten,
}

-- Each enumeration column holds the value of a member.
pub record Typed (n : Notification) : Type 0 where
  pub status : (s : NotificationStatus) × (status_of_value n.status ≡ ok s)
  pub channel : (c : NotificationChannel) × (channel_of_value n.channel ≡ ok c)
  pub priority : (q : NotificationPriority) × (priority_of_value n.priority ≡ ok q)
  pub source_service : (s : SourceService) × (source_of_value n.source_service ≡ ok s)
  pub event_type : (e : EventType) × (event_of_value n.event_type ≡ ok e)
  pub error_code :
      (k : ℕ) → n.error_code ≡ some k → (c : NotificationErrorCode) × (error_of_value k ≡ ok c)

status_back : (s : NotificationStatus) → status_of_value (status_value s) ≡ ok s
unfolding status_of_value
status_back pending = refl
status_back queued = refl
status_back sent = refl
status_back failed = refl
status_back retrying = refl

priority_back : (q : NotificationPriority) → priority_of_value (priority_value q) ≡ ok q
unfolding priority_of_value
priority_back critical = refl
priority_back high = refl
priority_back medium = refl
priority_back low = refl

source_back : (s : SourceService) → source_of_value (source_value s) ≡ ok s
unfolding source_of_value
source_back order = refl
source_back payment = refl
source_back shipping = refl

-- A value that was read off a member.
pub member-of :
    {M : Type 0} (r : Result M) (value : M → ℕ) (of_value : ℕ → Result M) (k : ℕ)
    → ((m : M) → of_value (value m) ≡ ok m)
    → (r >>= λ m. ok (value m)) ≡ ok k
    → (m : M) × (of_value k ≡ ok m)
member-of (ok m) value of_value k back e = (m, ap of_value (sym (ok-injective e)) ∙ back m)
member-of (err x) value of_value k back e = absurd (ok≢err e)

Drafted-Typed :
    (p : NotificationCreate) (m : Notification) (i : ℕ) (t : Option ℕ)
    → Drafted p m
    → Typed (record m { id = i; ctime = t })
unfolding new_notification source_service_as_int event_type_as_int priority_as_int
Drafted-Typed p m i t (drafted c s e q r is_s is_e is_q) = record {
  status = (pending, status_back pending);
  channel = (c, channel_of_value-channel_value c);
  priority = member-of _ priority_value priority_of_value q priority_back is_q;
  source_service = member-of _ source_value source_of_value s source_back is_s;
  event_type = member-of _ _ event_of_value e event_of_value-event_value is_e;
  error_code = λ k none_k. absurd (none≢some none_k);
}

code-of :
    (c : NotificationErrorCode) (k : ℕ)
    → some (error_value c) ≡ some k
    → (c' : NotificationErrorCode) × (error_of_value k ≡ ok c')
code-of c k e = (c, ap error_of_value (sym (some_eq e)) ∙ error_of_value-error_value c)

-- A write of the status of a member, of an error code of a member, and of columns that hold no member.
record Marked (n m : Notification) : Type 0 where
  member : NotificationStatus
  status : m.status ≡ status_value member
  channel : m.channel ≡ n.channel
  priority : m.priority ≡ n.priority
  source_service : m.source_service ≡ n.source_service
  event_type : m.event_type ≡ n.event_type
  error_code :
      (k : ℕ)
      → m.error_code ≡ some k
      → (n.error_code ≡ some k) ⊎ ((c : NotificationErrorCode) × (error_of_value k ≡ ok c))

Marked-Typed : (n m : Notification) → Marked n m → Typed n → Typed m
Marked-Typed n m w h = record {
  status = (w.member, ap status_of_value w.status ∙ status_back w.member);
  channel = rw w.channel h.channel;
  priority = rw w.priority h.priority;
  source_service = rw w.source_service h.source_service;
  event_type = rw w.event_type h.event_type;
  error_code = λ k is_k. elim (w.error_code k is_k) [
    | inl before ↦ h.error_code k before
    | inr known ↦ known
  ];
}

marked :
    (n : Notification) (s : NotificationStatus) (code : Option ℕ) (count : ℕ) (retry_at : Option ℕ)
    (x : Option String) (sent_at t : Option ℕ)
    → ((k : ℕ)
        → code ≡ some k
        → (n.error_code ≡ some k) ⊎ ((c : NotificationErrorCode) × (error_of_value k ≡ ok c)))
    → Marked n (record n {
      status = status_value s;
      error_code = code;
      retry_count = count;
      next_retry_time = retry_at;
      external_id = x;
      stime = sent_at;
      mtime = t;
    })
marked n s code count retry_at x sent_at t codes = record {
  member = s;
  status = refl;
  channel = refl;
  priority = refl;
  source_service = refl;
  event_type = refl;
  error_code = codes;
}

Progress-Typed :
    {S : Type 0} (providers : Providers S) (n m : Notification)
    → Progress providers n m
    → Typed n
    → Typed m
Progress-Typed providers n m (unchanged e) = subst Typed (sym e)
Progress-Typed providers n m (marked_queued t e) =
    Marked-Typed n m (rw e (marked n queued _ _ _ _ _ _ (λ k before. inl before)))
Progress-Typed providers n m (marked_sent t x now e) =
    Marked-Typed n m (rw e (marked n sent _ _ _ _ _ _ (λ k before. inl before)))
Progress-Typed providers n m (marked_failed t code reason e) =
    Marked-Typed n m (rw e (marked n failed _ _ _ _ _ _ (λ k is_k. inr (code-of code k is_k))))
Progress-Typed providers n m (marked_retrying t code event known room e) =
    Marked-Typed n m (rw e (marked n retrying _ _ _ _ _ _ (λ k is_k. inr (code-of code k is_k))))

Requeued-Typed : (n m : Notification) → Requeued n m → Typed n → Typed m
Requeued-Typed n m (kept e) = subst Typed (sym e)
Requeued-Typed n m (requeued t e) =
    Marked-Typed n m (rw e (marked n pending _ _ _ _ _ _ (λ k none_k. absurd (none≢some none_k))))

Steps-Every :
    (E : Services) (providers : Providers E.Outside) (w v : World E)
    → Steps providers w v
    → Every E Typed w.db
    → Every E Typed v.db
Steps-Every E providers w v done h = h
Steps-Every E providers w v (then_ {u} before last) h =
    Step-Rows E (Every E Typed) (Every-InsertSafe E Typed Drafted-Typed) providers
      (Rewritten-Every E (Progress providers) Typed (Progress-Typed providers)) last
      (inr λ ms i. record {
        at = λ x.
            Rewritten-Every E Requeued Typed Requeued-Typed x.db _
              (retry_notification-Rewritten E ms i x);
      })
      (Steps-Every E providers w u before h)

Typed-repr : (n : Notification) → Typed n → (text : String) × (repr n ≡ ok text)
unfolding repr
Typed-repr n h =
    let (c, is_c) = h.channel in
    let (s, is_s) = h.status in
    let (q, is_q) = h.priority in (repr_text n.id c s q, rw is_c (rw is_s (rw is_q refl)))

-- However the operations of the program follow each other, and whatever the services and providers do:
-- when every stored notification has values of members in its enumeration columns at first, every one
-- has them later, also in its error code if it has one, and its text for a log line never raises.
pub Steps-Typed :
    (E : Services) (providers : Providers E.Outside) (w v : World E)
    → Steps providers w v
    → Every E Typed w.db
    → (j : ℕ) (n : Notification) → E.database.table v.db j ≡ some n
    → Typed n × (text : String) × (repr n ≡ ok text)
Steps-Typed E providers w v run h j n at_j =
    let typed = Steps-Every E providers w v run h j n at_j in
    let (text, is_text) = Typed-repr n typed in (typed, text, is_text)
