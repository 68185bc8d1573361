-- ===== src/Worker/Drained.antt =====
-- The rounds of a worker until the queue is empty, with services that answer.
use high_throughput_notifica.Prelude.{
  clash, ℕ, ◌≤◌, ◌≡◌, refl, ◌∙◌, subst, true, false, none, List, [], ◌∷◌, length, Bool-cases,
  Option-cases, inl, inr, arith,
}
use high_throughput_notifica.Exec.{ok}
use high_throughput_notifica.Exec.Ends.{Ends, seq-Ends, pure-Ends, weaken-Ends}
use high_throughput_notifica.Exec.Results.{ok≢err}
use high_throughput_notifica.Decimal.{Bytes}
use high_throughput_notifica.Model.Enums.{NotificationChannel}
use high_throughput_notifica.Services.{Services, Reliable, World}
use high_throughput_notifica.Repository.Table.{row}
use high_throughput_notifica.Queue.{queue_key}
use high_throughput_notifica.Provider.{Providers}
use high_throughput_notifica.Dispatch.{Chance}
use high_throughput_notifica.Dispatch.Settles.{Served}
use high_throughput_notifica.Worker.{worker_round, worker_loop}
use high_throughput_notifica.Worker.Carried.{worker_round-returns}
use high_throughput_notifica.Worker.Members.{has}
use high_throughput_notifica.Worker.Waiting.{Popping, Waiting, Ready, Tried, move-Trial, keep-Trial}
use high_throughput_notifica.Worker.Round.{Left, round-Left}

pub record Drained (E : Services) (providers : Providers E.Outside) (chances : List Chance)
    (l : List ℕ) (w v : World E) : Type 0 where
  pub empty : (m : Bytes) → E.redis.score v.redis queue_key m ≡ none
  pub tried : (i : ℕ) → has i l ≡ true → Tried providers chances w v i
  pub others : (i : ℕ) → has i l ≡ false → row v i ≡ row w i

Left-Drained :
    (E : Services) (providers : Providers E.Outside) (chance : Chance) (cs : List Chance)
    (l rest : List ℕ) (w u : World E)
    → Left E providers (chance ∷ cs) l rest w (worker_round {E = E} providers chance w).1
    → Drained E providers cs rest (worker_round {E = E} providers chance w).1 u
    → Drained E providers (chance ∷ cs) l w u
Left-Drained E providers chance cs l rest w u left drained = record {
  empty = drained.empty;
  tried = λ i in_l. elim (Bool-cases (has i rest)) [
    | inl in_rest ↦
        λ n here. move-Trial (drained.tried i in_rest n ((left.still i in_rest).1 ∙ here))
    | inr out ↦ λ n here. keep-Trial (drained.others i out) (left.gone i in_l out n here)
  ];
  others = λ i out. drained.others i (not_in_rest i out) ∙ left.never i out;
}
  where
    not_in_rest : (i : ℕ) → has i l ≡ false → has i rest ≡ false
    not_in_rest i out = elim (Bool-cases (has i rest)) [
      | inl in_rest ↦ absurd (clash (left.still i in_rest).0 out)
      | inr out_of_rest ↦ out_of_rest
    ]

module _ (E : Services) (R : Reliable E.database) (providers : Providers E.Outside)
    (served : (channel : NotificationChannel) → Served providers channel)
    (popping : Popping E) where
  -- An empty list of what is to be done.
  nobody-Drained :
      (l : List ℕ) (w : World E) → length l ≤ 0 → Waiting E l w.redis → Drained E providers [] l w w
  unfolding has
  nobody-Drained [] w none_left waiting = record {
    empty = λ m. elim (Option-cases (E.redis.score w.redis queue_key m)) [
      | inl gone ↦ gone
      | inr (x, at_m) ↦ absurd (clash (waiting.members m x at_m).1 refl)
    ];
    tried = λ i in_nil. absurd (clash in_nil refl);
    others = λ i out. refl;
  }
  nobody-Drained (i ∷ rest) w none_left waiting = absurd (omega (arith, none_left))

  drain :
      (chances : List Chance) (l : List ℕ) (w : World E)
      → length l ≤ length chances
      → Waiting E l w.redis
      → ((i : ℕ) → has i l ≡ true → Ready E w i)
      → Ends
          (λ r v. (r ≡ ok tt) × Drained E providers chances l w v)
          (worker_loop providers chances)
          w
  unfolding worker_loop
  drain [] l w room waiting ready = pure-Ends tt w (refl, nobody-Drained l w room waiting)
  drain (chance ∷ cs) l w room waiting ready =
      let (rest, fits, left) =
        round-Left E R providers served popping chance l cs w room waiting ready in
      seq-Ends
        {P = λ r v.
          ((b : Unit {0}) × (r ≡ ok b))
          × ((v ≡ (worker_round {E = E} providers chance w).1)
              × Left E providers (chance ∷ cs) l rest w v)}
        _ _ w (record { at = ((worker_round-returns E providers chance w).at, (refl, left)) })
        (λ e v q. absurd (ok≢err q.0.1))
        λ b v q.
          weaken-Ends _ v (drain cs rest v fits q.1.1.waiting (still_ready rest v q.1.1)) λ r u d. (
            d.0,
            Left-Drained E providers chance cs l rest w u
                (subst (Left E providers (chance ∷ cs) l rest w) q.1.0 q.1.1)
                (subst (λ y. Drained E providers cs rest y u) q.1.0 d.1),
          )
    where
      still_ready :
          (rest : List ℕ) (v : World E)
          → Left E providers (chance ∷ cs) l rest w v
          → (i : ℕ) → has i rest ≡ true
          → Ready E v i
      still_ready rest v left i in_rest =
          let (in_l, same_row) = left.still i in_rest in
          let r = ready i in_l in
          record {
            notification = r.notification;
            channel = r.channel;
            event = r.event;
            here = same_row ∙ r.here;
            is_channel = r.is_channel;
            is_event = r.is_event;
          }

-- On a database and a Redis that answer, with providers that answer for every channel: when the queue
-- holds the identifiers of a list, each of a stored notification of a known channel and event, then at
-- least as many rounds of a worker as the list is long leave the queue empty. For each of these
-- notifications one of the rounds has asked the provider of its channel, and its row is what that
-- attempt makes of it, with the draws of that round; the other rows are as before.
pub worker_loop-Drained :
    (E : Services) (R : Reliable E.database) (popping : Popping E) (providers : Providers E.Outside)
    (chances : List Chance) (l : List ℕ) (w : World E)
    → ((channel : NotificationChannel) → Served providers channel)
    → length l ≤ length chances
    → Waiting E l w.redis
    → ((i : ℕ) → has i l ≡ true → Ready E w i)
    → Drained E providers chances l w (worker_loop {E = E} providers chances w).1
worker_loop-Drained E R popping providers chances l w served room waiting ready =
    (drain E R providers served popping chances l w room waiting ready).at.1
