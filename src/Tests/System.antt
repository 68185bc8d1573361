-- ===== src/Tests/System.antt =====
-- A run of the program: a request, a round of a worker on its notification, and a change elsewhere.
use high_throughput_notifica.Prelude.{
  some_eq, none≢some, ℕ, ◌≡◌, refl, subst, String, true, false, List, [], ◌∷◌, some, ◌==◌, ==_iff,
  Bool-cases, inl, inr,
}
use high_throughput_notifica.Model.Row.{Notification}
use high_throughput_notifica.Services.{World}
use high_throughput_notifica.Manager.{create_notification}
use high_throughput_notifica.Provider.{Providers}
use high_throughput_notifica.Worker.{worker_round}
use high_throughput_notifica.Worker.Carried.{Carried, Later}
use high_throughput_notifica.System.{Steps, posted, worked, done, then_}
use high_throughput_notifica.System.History.{Steps-Carried}
use high_throughput_notifica.System.Typed.{Typed, Steps-Typed}
use high_throughput_notifica.Manager.Every.{Every}
use high_throughput_notifica.Model.Repr.{repr}
use high_throughput_notifica.Model.Enums.{
  retrying, sms, critical, payment, payment_otp_requested, status_of_value, channel_of_value,
  priority_of_value, source_of_value, event_of_value,
}
use high_throughput_notifica.Exec.{ok}
use high_throughput_notifica.Repository.Table.{row}
use high_throughput_notifica.System.Limit.{AllLimited, Steps-AllLimited}
use high_throughput_notifica.Samples.{memory, find}
use high_throughput_notifica.Samples.World.{
  services, otp, world, provider, refused, only_sms, chance,
}
use high_throughput_notifica.Tests.Manager.{request}

abbrev requested : List Notification → World (services false true)
requested rows =
    (create_notification {E = services false true} (λ k. 500) request (world false true rows)).1

abbrev timing_out : Providers ℕ
timing_out = only_sms (provider true (refused 1))

abbrev tried : List Notification → World (services false true)
tried rows = (worker_round {E = services false true} timing_out chance (requested rows)).1

abbrev run : (rows : List Notification) → Steps timing_out (world false true rows) (tried rows)
run rows = then_ (then_ done (posted (λ k. 500) request refl)) (worked chance refl)

otp-Typed : Typed (otp 5 1)
unfolding status_of_value channel_of_value priority_of_value source_of_value event_of_value
otp-Typed = record {
  status = (retrying, refl);
  channel = (sms, refl);
  priority = (critical, refl);
  source_service = (payment, refl);
  event_type = (payment_otp_requested, refl);
  error_code = λ k none_k. absurd (none≢some none_k);
}

one_row_lem :
    (j : ℕ) (n : Notification)
    → row (world false true (otp 5 1 ∷ [])) j ≡ some n
    → (7 ≡ j) × (otp 5 1 ≡ n)
unfolding world memory find
one_row_lem j n at_j = elim (Bool-cases (7 == j)) [
  | inl hit ↦ ((==_iff 7 j).0 hit, some_eq (rw hit at at_j))
  | inr miss ↦ absurd (none≢some (rw miss at at_j))
]

one_row-Typed : Every (services false true) Typed (world false true (otp 5 1 ∷ [])).db
one_row-Typed j n at_j = subst Typed (one_row_lem j n at_j).1 otp-Typed

start_row : row (world false true (otp 5 1 ∷ [])) 7 ≡ some (otp 5 1)
unfolding world memory
start_row = refl

abbrev carried : (m : Notification) × (row (tried (otp 5 1 ∷ [])) 7 ≡ some m) × Later (otp 5 1) m
carried =
    Steps-Carried (services false true) timing_out (world false true (otp 5 1 ∷ []))
      (tried (otp 5 1 ∷ [])) (run (otp 5 1 ∷ [])) 7 (otp 5 1) start_row

empty-AllLimited : AllLimited (world false true [])
unfolding world memory
empty-AllLimited j n e = absurd (none≢some e)

Steps-Carried_example :
    Carried (services false true) (world false true (otp 5 1 ∷ [])) (tried (otp 5 1 ∷ [])).db
Steps-Carried_example =
    Steps-Carried (services false true) timing_out (world false true (otp 5 1 ∷ []))
      (tried (otp 5 1 ∷ [])) (run (otp 5 1 ∷ []))

Steps-AllLimited_example : AllLimited (tried [])
Steps-AllLimited_example =
    Steps-AllLimited (services false true) timing_out (world false true []) (tried []) (run []) refl
      empty-AllLimited

Steps-Typed_example : Typed carried.0 × (text : String) × (repr carried.0 ≡ ok text)
Steps-Typed_example =
    Steps-Typed (services false true) timing_out (world false true (otp 5 1 ∷ []))
      (tried (otp 5 1 ∷ [])) (run (otp 5 1 ∷ [])) one_row-Typed 7 carried.0 carried.1
