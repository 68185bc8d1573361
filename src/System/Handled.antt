-- ===== src/System/Handled.antt =====
-- A request, and the rounds of a worker after it.
use high_throughput_notifica.Prelude.{
  ℕ, ◌≤◌, ◌≡◌, refl, sym, ap, ◌∙◌, subst, none≢some, clash, Bool, true, false, ◌||◌, none, some,
  List, [], ◌∷◌, length, All, ◌==◌, ==_iff, ==_refl, Bool-cases, inl, inr,
}
use high_throughput_notifica.Exec.{ok}
use high_throughput_notifica.Decimal.{Bytes}
use high_throughput_notifica.Model.Enums.{
  NotificationChannel, channel_of_value-channel_value, channel_of_value, event_of_value,
  event_value, event_of_value-event_value,
}
use high_throughput_notifica.Model.Row.{Notification}
use high_throughput_notifica.Model.Channels.{event_channel_map}
use high_throughput_notifica.Services.{Services, Reliable, World}
use high_throughput_notifica.Repository.Table.{row}
use high_throughput_notifica.Queue.{queue_key}
use high_throughput_notifica.Request.{NotificationCreate, event_type_as_int}
use high_throughput_notifica.Manager.{create_notification}
use high_throughput_notifica.Manager.Made.{Made, MadeFor, no_channels, skipped, made}
use high_throughput_notifica.Manager.Loop.{create_notification-MadeFor}
use high_throughput_notifica.Manager.Grows.{Adding, create_notification-Grows}
use high_throughput_notifica.Provider.{Providers}
use high_throughput_notifica.Dispatch.{Chance}
use high_throughput_notifica.Dispatch.Settles.{Served}
use high_throughput_notifica.Worker.{worker_loop}
use high_throughput_notifica.Worker.Members.{has}
use high_throughput_notifica.Worker.Waiting.{Popping, Ready, Trial, Tried}
use high_throughput_notifica.Worker.Drained.{Drained, worker_loop-Drained}
use high_throughput_notifica.System.Typed.{member-of}
use high_throughput_notifica.System.Holding.{ids, Holds, grow-Holds, length-ids}

or-right : (a : Bool) {b : Bool} → b ≡ true → (a || b) ≡ true
or-right true e = refl
or-right false e = e

-- A notification that a request has made, with the row that it has.
Made-Ready :
    (E : Services) (p : NotificationCreate) (v : World E) (c : NotificationChannel)
    (n : Notification)
    → Made p c n
    → row v n.id ≡ some n
    → Ready E v n.id
unfolding event_type_as_int
Made-Ready E p v c n is_made here =
    let (event, known) =
      member-of _ event_value event_of_value is_made.event event_of_value-event_value
        is_made.event_ok in
    record {
      notification = n;
      channel = c;
      event = event;
      here = here;
      is_channel =
          ap (λ (m : Notification). channel_of_value m.channel) is_made.fields
          ∙ channel_of_value-channel_value c;
      is_event = ap (λ (m : Notification). event_of_value m.event_type) is_made.fields ∙ known;
    }

abbrev AllReady : {E : Services} → World E → List Notification → Type 0
AllReady {E} v ns = All (λ (n : Notification). (row v n.id ≡ some n) × Ready E v n.id) ns

MadeFor-AllReady :
    (E : Services) (p : NotificationCreate) (v : World E) (cs : List NotificationChannel)
    (ns : List Notification)
    → MadeFor p v cs ns
    → AllReady v ns
MadeFor-AllReady E p v [] [] no_channels = tt
MadeFor-AllReady E p v [] (n ∷ ns) made_for = elim made_for [ ]
MadeFor-AllReady E p v (c ∷ cs) ns (skipped rest) = MadeFor-AllReady E p v cs ns rest
MadeFor-AllReady E p v (c ∷ cs) (n ∷ ns) (made is_made here rest) =
    ((here, Made-Ready E p v c n is_made here), MadeFor-AllReady E p v cs ns rest)

AllReady-Ready :
    (E : Services) (v : World E) (ns : List Notification)
    → AllReady v ns
    → (i : ℕ) → has i (ids ns) ≡ true
    → Ready E v i
unfolding has
AllReady-Ready E v [] ready i in_ns = absurd (clash in_ns refl)
AllReady-Ready E v (n ∷ ns) ready i in_ns = elim (Bool-cases (i == n.id)) [
  | inl hit ↦ subst (Ready E v) (sym ((==_iff i n.id).0 hit)) ready.0.1
  | inr miss ↦ AllReady-Ready E v ns ready.1 i (rw miss at in_ns)
]

AllReady-AllTried :
    (E : Services) (providers : Providers E.Outside) (chances : List Chance) (v u : World E)
    (ns : List Notification)
    → AllReady v ns
    → ((i : ℕ) → has i (ids ns) ≡ true → Tried providers chances v u i)
    → All (λ (n : Notification). Trial E providers chances v u n.id n) ns
unfolding has
AllReady-AllTried E providers chances v u [] ready tried = tt
AllReady-AllTried E providers chances v u (n ∷ ns) ready tried = (
  tried n.id (rw (==_refl n.id) refl) n ready.0.0,
  AllReady-AllTried E providers chances v u ns ready.1
      (λ i in_ns. tried i (or-right (i == n.id) in_ns)),
)

-- A request, then a worker: on a database and a Redis that answer, with providers that answer for every
-- channel. When nothing is in the queue, and a request returns notifications and is no duplicate, then
-- after at least as many rounds of a worker as there are notifications the queue is empty; for each of
-- them one of the rounds has asked the provider of its channel, and its row is what that attempt makes
-- of it; and no other row has changed since the request.
pub request-Handled :
    (E : Services) (R : Reliable E.database) (adding : Adding E) (popping : Popping E)
    (providers : Providers E.Outside) (clock : ℕ → ℕ) (p : NotificationCreate)
    (chances : List Chance) (w : World E) (created : List Notification)
    → ((channel : NotificationChannel) → Served providers channel)
    → ((m : Bytes) → E.redis.score w.redis queue_key m ≡ none)
    → (create_notification {E = E} clock p w).0 ≡ ok (created, false)
    → length created ≤ length chances
    → let v = (create_notification {E = E} clock p w).1 in
      let u = (worker_loop {E = E} providers chances v).1 in
      ((m : Bytes) → E.redis.score u.redis queue_key m ≡ none)
      × All (λ (n : Notification). Trial E providers chances v u n.id n) created
      × ((i : ℕ) → has i (ids created) ≡ false → row u i ≡ row v i)
unfolding has
request-Handled E R adding popping providers clock p chances w created served empty returned room =
    (D.empty, AllReady-AllTried E providers chances v _ created ready D.tried, D.others)
  where
    v : World E
    v = (create_notification {E = E} clock p w).1

    ready : AllReady v created
    ready =
        let (event, known, made_for) = create_notification-MadeFor E clock p w created returned in
        MadeFor-AllReady E p v (event_channel_map event) created made_for

    nobody :
        (s : E.redis.State)
        → ((m : Bytes) → E.redis.score s queue_key m ≡ E.redis.score w.redis queue_key m)
        → Holds E adding [] s
    nobody s same = record {
      members = λ m x at_m. absurd (none≢some (sym (same m ∙ empty m) ∙ at_m));
      present = λ i in_nil. absurd (clash in_nil refl);
    }

    D : Drained E providers chances (ids created) v (worker_loop {E = E} providers chances v).1
    D =
        worker_loop-Drained E R popping providers chances (ids created) v served
          (rw (length-ids created) room)
          ((create_notification-Grows E adding (Holds E adding) (grow-Holds E adding) p w nobody
              clock).at
            created false returned)
          (AllReady-Ready E v created ready)
