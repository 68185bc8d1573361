-- ===== src/Worker/Waiting.antt =====
-- The queue of the workers with stored notifications in it, and what a worker can make of them.
use high_throughput_notifica.Prelude.{ℕ, ◌≡◌, String, true, Option, none, some, List, ◌∷◌, ◌∙◌}
use high_throughput_notifica.Exec.{ok}
use high_throughput_notifica.Decimal.{Bytes, str}
use high_throughput_notifica.Model.Enums.{
  NotificationChannel, EventType, channel_of_value, event_of_value,
}
use high_throughput_notifica.Model.Row.{Notification}
use high_throughput_notifica.Services.{Services, World}
use high_throughput_notifica.Repository.Table.{row}
use high_throughput_notifica.Queue.{queue_key}
use high_throughput_notifica.Dispatch.{Chance}
use high_throughput_notifica.Dispatch.Attempt.{Attempt, Attempted, after_attempt}
use high_throughput_notifica.Provider.{BaseProvider, Providers}
use high_throughput_notifica.Worker.{worker_round}
use high_throughput_notifica.Worker.Members.{has}

-- Redis answers every BZPOPMIN, and one that finds nothing changes nothing.
pub record Popping (E : Services) : Type 0 where
  pub total :
      (q : String) (s : E.redis.State)
      → (o : Option (Bytes × ℕ)) × ((E.redis.bzpopmin q s).0 ≡ ok o)
  pub nothing :
      (q : String) (s : E.redis.State) (m : Bytes)
      → (E.redis.bzpopmin q s).0 ≡ ok none
      → E.redis.score (E.redis.bzpopmin q s).1 q m ≡ E.redis.score s q m

-- The members of the queue are the identifiers of a list.
pub record Waiting (E : Services) (l : List ℕ) (s : E.redis.State) : Type 0 where
  pub members :
      (m : Bytes) (x : ℕ)
      → E.redis.score s queue_key m ≡ some x
      → (i : ℕ) × (has i l ≡ true) × (m ≡ str i)
  pub present : (i : ℕ) → has i l ≡ true → (x : ℕ) × (E.redis.score s queue_key (str i) ≡ some x)

-- The row of an identifier is a notification of a known channel and event.
pub record Ready (E : Services) (w : World E) (i : ℕ) : Type 0 where
  pub notification : Notification
  pub channel : NotificationChannel
  pub event : EventType
  pub here : row w i ≡ some notification
  pub is_channel : channel_of_value notification.channel ≡ ok channel
  pub is_event : event_of_value notification.event_type ≡ ok event

-- Of the rounds of a worker from a world, one for each draw of a list, the one of the draw `d` starts
-- in the world `u`.
pub data RoundFrom {E : Services} (providers : Providers E.Outside)
    : List Chance → World E → Chance → World E → Type 0 where
  first : (c : Chance) (cs : List Chance) (w : World E) → RoundFrom providers (c ∷ cs) w c w
  later :
      {c d : Chance} {cs : List Chance} {w u : World E}
      → RoundFrom providers cs (worker_round {E = E} providers c w).1 d u
      → RoundFrom providers (c ∷ cs) w d u

-- In one of the rounds, the provider of the channel of `n` has been asked for its health, and to send
-- if it was healthy; the row in `v` is what that attempt makes of `n`.
pub record Trial (E : Services) (providers : Providers E.Outside) (chances : List Chance)
    (w v : World E) (i : ℕ) (n : Notification) : Type 0 where
  pub event : EventType
  pub channel : NotificationChannel
  pub provider : BaseProvider E.Outside
  pub chance : Chance
  pub from : World E
  pub attempt : Attempt
  pub after : E.Outside
  pub mtime : Option ℕ
  pub is_event : event_of_value n.event_type ≡ ok event
  pub is_channel : channel_of_value n.channel ≡ ok channel
  pub has_provider : providers channel ≡ some provider
  pub in_round : RoundFrom providers chances w chance from
  pub asked : Attempted provider n from.outside attempt after
  pub now : row v i ≡ some (record (after_attempt chance event n attempt) { mtime = mtime })

pub move-Trial :
    {E : Services} {providers : Providers E.Outside} {c : Chance} {chances : List Chance}
    {w v : World E} {i : ℕ} {n : Notification}
    → Trial E providers chances (worker_round {E = E} providers c w).1 v i n
    → Trial E providers (c ∷ chances) w v i n
move-Trial t = record {
  event = t.event;
  channel = t.channel;
  provider = t.provider;
  chance = t.chance;
  from = t.from;
  attempt = t.attempt;
  after = t.after;
  mtime = t.mtime;
  is_event = t.is_event;
  is_channel = t.is_channel;
  has_provider = t.has_provider;
  in_round = later t.in_round;
  asked = t.asked;
  now = t.now;
}

-- The rows that the rest leaves as they are.
pub keep-Trial :
    {E : Services} {providers : Providers E.Outside} {chances : List Chance} {w v u : World E}
    {i : ℕ} {n : Notification}
    → row u i ≡ row v i
    → Trial E providers chances w v i n
    → Trial E providers chances w u i n
keep-Trial same t = record {
  event = t.event;
  channel = t.channel;
  provider = t.provider;
  chance = t.chance;
  from = t.from;
  attempt = t.attempt;
  after = t.after;
  mtime = t.mtime;
  is_event = t.is_event;
  is_channel = t.is_channel;
  has_provider = t.has_provider;
  in_round = t.in_round;
  asked = t.asked;
  now = same ∙ t.now;
}

-- One attempt has been made of what was in the row of `w`.
abbrev pub Tried :
    {E : Services} → Providers E.Outside → List Chance → World E → World E → ℕ → Type 0
Tried {E} providers chances w v i =
    (n : Notification) → row w i ≡ some n → Trial E providers chances w v i n
