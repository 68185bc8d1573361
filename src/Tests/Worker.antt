-- ===== src/Tests/Worker.antt =====
-- Two rounds of a worker over a queue of one notification.
use high_throughput_notifica.Prelude.{
  refl, sym, subst, ℕ, ◌+◌, ◌==◌, ==_iff, Bool-cases, clash, inl, inr, none, ◌≡◌, true, false, some,
  [], ◌∷◌, arith,
}
use high_throughput_notifica.Exec.{ok, other}
use high_throughput_notifica.Worker.{worker_loop, worker_round}
use high_throughput_notifica.Worker.Carried.{Carried, worker_loop-Carried}
use high_throughput_notifica.Worker.Members.{has}
use high_throughput_notifica.Worker.Waiting.{Ready}
use high_throughput_notifica.Worker.Drained.{Drained, worker_loop-Drained}
use high_throughput_notifica.Dispatch.Attempt.{success}
use high_throughput_notifica.Dispatch.Settles.{Served}
use high_throughput_notifica.Provider.{BaseProvider, Providers}
use high_throughput_notifica.Model.Enums.{
  NotificationChannel, sms, payment_otp_requested, channel_of_value, event_of_value,
}
use high_throughput_notifica.Samples.Pops.{services-Popping, waiting-Waiting}
use high_throughput_notifica.Worker.Lost.{Lost, worker_round-Lost}
use high_throughput_notifica.Decimal.{str}
use high_throughput_notifica.Services.{Services, World}
use high_throughput_notifica.Samples.{memory, memory-Reliable, blind, store, exchange}
use high_throughput_notifica.Samples.World.{
  services, otp, waiting, only_sms, provider, delivered, chance, holding,
}

worker_loop-Carried_example :
    let (r, v) =
      worker_loop {E = services false true}
        (only_sms (provider true delivered))
        (chance ∷ chance ∷ [])
        (waiting false true (otp 1 0 ∷ [])) in
    ((b : Unit {0}) × (r ≡ ok b))
    × Carried (services false true) (waiting false true (otp 1 0 ∷ [])) v.db
worker_loop-Carried_example =
    worker_loop-Carried (services false true) (only_sms (provider true delivered))
      (chance ∷ chance ∷ []) (waiting false true (otp 1 0 ∷ []))

-- Notification 7 waits, and the database cannot be read.
abbrev blind_services : Services
blind_services = record { database = blind; redis = store; broker = exchange true; Outside = ℕ }

unfoldable unread : World blind_services
unfolding blind store exchange str
unread = record {
  db = holding (otp 1 0 ∷ []);
  redis = record { keys = []; entries = (str 7, 1000000000500) ∷ []; expiries = [] };
  broker = [];
  rmq_connection = none;
  rmq_channel = none;
  expired = [];
  outside = 0;
}

worker_round-Lost_example :
    let (r, v) =
      worker_round {E = blind_services} (only_sms (provider true delivered)) chance unread in
    Lost blind_services unread 7 r v
unfolding unread blind store str
worker_round-Lost_example =
    worker_round-Lost blind_services (only_sms (provider true delivered)) chance unread 7
      1000000000500 (other 0) refl refl

-- A provider that takes every message.
unfoldable taking : BaseProvider ℕ
taking = provider true delivered

pub by_one : Providers ℕ
by_one channel = some taking

pub by_one-Served : (channel : NotificationChannel) → Served by_one channel
unfolding by_one taking
by_one-Served channel = (taking, refl, λ n s. (_, s + 1, success s delivered refl refl refl refl))

otp-Ready :
    (i : ℕ)
    → has i (7 ∷ []) ≡ true
    → Ready (services false true) (waiting false true (otp 1 0 ∷ [])) i
unfolding has waiting memory channel_of_value event_of_value
otp-Ready i in_l = elim (Bool-cases (i == 7)) [
  | inl hit ↦
      subst (Ready (services false true) (waiting false true (otp 1 0 ∷ [])))
        (sym ((==_iff i 7).0 hit))
        (record {
          notification = otp 1 0;
          channel = sms;
          event = payment_otp_requested;
          here = refl;
          is_channel = refl;
          is_event = refl;
        })
  | inr miss ↦ absurd (clash in_l (rw miss refl))
]

worker_loop-Drained_example :
    Drained
      (services false true)
      by_one
      (chance ∷ chance ∷ [])
      (7 ∷ [])
      (waiting false true (otp 1 0 ∷ []))
      (worker_loop {E = services false true} by_one
        (chance ∷ chance ∷ [])
        (waiting false true (otp 1 0 ∷ []))).1
worker_loop-Drained_example =
    worker_loop-Drained (services false true) memory-Reliable services-Popping by_one
      (chance ∷ chance ∷ []) (7 ∷ []) (waiting false true (otp 1 0 ∷ [])) by_one-Served
      (omega arith) (waiting-Waiting (otp 1 0 ∷ [])) otp-Ready
