-- ===== src/Samples/Exchange.antt =====
-- A broker that keeps its publications in a list; when it is down, every call raises.
use high_throughput_notifica.Prelude.{
  ◌≡◌, refl, Bool, true, false, List, [], ◌∷◌, ◌++◌, if◌then◌else◌,
}
use high_throughput_notifica.Exec.{Exec, Result, ok, err, other}
use high_throughput_notifica.Services.{Broker, Publication}

abbrev Log : Type 0
Log = List Publication

pub answer {ℓ} : {A : Type ℓ} → Bool → A → Result A
answer up a = if up then ok a else err (other 2)

pub append : Bool → Publication → Exec Log Unit
unfolding answer
append up p s = if up then (ok tt, s ++ p ∷ []) else (err (other 2), s)

pub append-ok :
    (up : Bool) (p : Publication) (s : Log)
    → (append up p s).0 ≡ ok tt
    → (append up p s).1 ≡ s ++ p ∷ []
unfolding append
append-ok true p s h = refl
append-ok false p s h = cc

unfoldable pub exchange : Bool → Broker
unfolding answer append
exchange up = record {
  State = Log;
  Connection = Unit {0};
  Channel = Unit {0};
  published = λ s. s;
  connect = λ s. (answer up tt, s);
  open_channel = λ c s. (answer up tt, s);
  declare_queue = λ c q d s. (answer up tt, s);
  declare_exchange = λ c x t s. (answer up tt, s);
  bind_queue = λ c q x s. (answer up tt, s);
  publish = λ c. append up;
  close = λ c s. (answer up tt, s);
  publish_ok = λ c p s h. append-ok up p s h;
  connect_keeps = λ s. refl;
  open_channel_keeps = λ c s. refl;
  declare_queue_keeps = λ c q d s. refl;
  declare_exchange_keeps = λ c x t s. refl;
  bind_queue_keeps = λ c q x s. refl;
  close_keeps = λ c s. refl;
}
