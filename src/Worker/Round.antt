-- ===== src/Worker/Round.antt =====
-- One round of a worker on a queue of stored notifications, with services that answer.
use high_throughput_notifica.Prelude.{
  some_eq, none≢some, clash, ℕ, ◌≤◌, ◌≡◌, refl, sym, ap, ◌∙◌, subst, true, false, Option, none,
  some, List, [], ◌∷◌, length, ◌==◌, ==_iff, Bool-cases, inl, inr, arith,
}
use high_throughput_notifica.Exec.{ok, pure, lift, ◌>>=◌, try_except}
use high_throughput_notifica.Decimal.{Bytes, Bytes-discrete, str, int-str, str-injective}
use high_throughput_notifica.Model.Enums.{NotificationChannel}
use high_throughput_notifica.Services.{Services, Reliable, World, on_redis}
use high_throughput_notifica.Repository.Table.{row}
use high_throughput_notifica.Queue.{queue_key, dequeue, member_id}
use high_throughput_notifica.Provider.{Providers}
use high_throughput_notifica.Dispatch.{Chance, dispatch}
use high_throughput_notifica.Dispatch.Outcome.{dispatch-Outcome}
use high_throughput_notifica.Dispatch.Lifecycle.{Dispatched}
use high_throughput_notifica.Dispatch.Progress.{dispatch-Dispatched}
use high_throughput_notifica.Dispatch.Redis.{dispatch-Kept}
use high_throughput_notifica.Dispatch.Settles.{Served}
use high_throughput_notifica.Worker.{dispatch_next, worker_round}
use high_throughput_notifica.Worker.Members.{has, remove, has-remove, has-remove_ne, remove-shorter}
use high_throughput_notifica.Worker.Waiting.{Popping, Waiting, Ready, first, Trial, Tried}

-- What a round leaves to be done: the list `rest`.
pub record Left (E : Services) (providers : Providers E.Outside) (chances : List Chance)
    (l rest : List ℕ) (w v : World E) : Type 0 where
  pub waiting : Waiting E rest v.redis
  pub still : (i : ℕ) → has i rest ≡ true → (has i l ≡ true) × (row v i ≡ row w i)
  pub gone : (i : ℕ) → has i l ≡ true → has i rest ≡ false → Tried providers chances w v i
  pub never : (i : ℕ) → has i l ≡ false → row v i ≡ row w i

module _ (E : Services) (R : Reliable E.database) (providers : Providers E.Outside)
    (served : (channel : NotificationChannel) → Served providers channel) (popping : Popping E)
    (chance : Chance) where
  abbrev popped : World E → World E
  popped w = record w { redis = (E.redis.bzpopmin queue_key w.redis).1 }

  round-nothing :
      (w : World E)
      → (E.redis.bzpopmin queue_key w.redis).0 ≡ ok none
      → (worker_round {E = E} providers chance w).1 ≡ popped w
  unfolding worker_round dequeue member_id dispatch_next on_redis try_except ◌>>=◌ pure
  round-nothing w e = rw e refl

  round-some :
      (w : World E) (i x : ℕ)
      → (E.redis.bzpopmin queue_key w.redis).0 ≡ ok (some (str i, x))
      → (dispatch {E = E} chance providers i (popped w)).0 ≡ ok tt
      → (worker_round {E = E} providers chance w).1
        ≡ (dispatch {E = E} chance providers i (popped w)).1
  unfolding worker_round dequeue member_id dispatch_next on_redis try_except ◌>>=◌ pure lift
  round-some w i x e returned = rw (e, int-str i, returned) refl

  -- The dispatch of a row of a known channel and event.
  dispatch-tried :
      (cs : List Chance) (w : World E) (i : ℕ)
      → Ready E w i
      → ((dispatch {E = E} chance providers i (popped w)).0 ≡ ok tt)
        × Tried providers (chance ∷ cs) w (dispatch {E = E} chance providers i (popped w)).1 i
  dispatch-tried cs w i ready =
      let (provider, has_provider, answers) = served ready.channel in
      let (a, s', try) = answers ready.notification w.outside in
      let done =
        dispatch-Outcome E R chance providers i (popped w) ready.notification ready.channel
          ready.event provider a s' ready.here ready.is_channel ready.is_event has_provider try in
      (
        done.returned,
        λ n here.
            subst (Trial E providers (chance ∷ cs) w _ i) (some_eq (sym ready.here ∙ here))
              (record {
                event = ready.event;
                channel = ready.channel;
                provider = provider;
                chance = chance;
                from = w;
                attempt = a;
                after = s';
                mtime = done.at_row.0;
                is_event = ready.is_event;
                is_channel = ready.is_channel;
                has_provider = has_provider;
                in_round = first chance cs w;
                asked = try;
                now = done.at_row.1;
              }),
      )

  -- A round with nothing in the queue.
  idle-Left :
      (cs : List Chance) (l : List ℕ) (w : World E)
      → Waiting E l w.redis
      → (E.redis.bzpopmin queue_key w.redis).0 ≡ ok none
      → Left E providers (chance ∷ cs) l [] w (worker_round {E = E} providers chance w).1
  unfolding has
  idle-Left cs l w waiting e =
      subst (Left E providers (chance ∷ cs) l [] w) (sym (round-nothing w e)) (record {
        waiting = record {
          members = λ m x at_m. absurd (
              none≢some (
                sym (E.redis.pop_empty queue_key w.redis m e)
                ∙ sym (popping.nothing queue_key w.redis m e)
                ∙ at_m));
          present = λ i in_nil. absurd (clash in_nil refl);
        };
        still = λ i in_nil. absurd (clash in_nil refl);
        gone = λ i in_l out.
            let (x, at_i) = waiting.present i in_l in
            absurd (none≢some (sym (E.redis.pop_empty queue_key w.redis (str i) e) ∙ at_i));
        never = λ i out. refl;
      })

  -- A round that takes the identifier `i`.
  busy-Left :
      (cs : List Chance) (l : List ℕ) (w : World E) (i x : ℕ)
      → Waiting E l w.redis
      → ((j : ℕ) → has j l ≡ true → Ready E w j)
      → has i l ≡ true
      → (E.redis.bzpopmin queue_key w.redis).0 ≡ ok (some (str i, x))
      → Left E providers (chance ∷ cs) l (remove i l) w (worker_round {E = E} providers chance w).1
  busy-Left cs l w i x waiting ready in_l e =
      subst (Left E providers (chance ∷ cs) l (remove i l) w) (sym (round-some w i x e tried.0))
        (record {
          waiting =
              (dispatch-Kept E (Waiting E (remove i l)) chance providers i).at (popped w)
                still_waiting;
          still = λ j in_rest.
              let (in_l', apart) = has-remove i j l in_rest in (in_l', D.others j apart);
          gone = λ j in_l' out. elim (Bool-cases (i == j)) [
            | inl hit ↦
                subst
                  (Tried providers (chance ∷ cs) w
                    (dispatch {E = E} chance providers i (popped w)).1)
                  ((==_iff i j).0 hit) tried.1
            | inr miss ↦
                absurd
                  (clash (has-remove_ne i j l in_l' (λ same. clash ((==_iff i j).1 same) miss)) out)
          ];
          never = λ j out. D.others j (λ same. clash (ap (λ k. has k l) (sym same) ∙ in_l) out);
        })
    where
      tried :
          ((dispatch {E = E} chance providers i (popped w)).0 ≡ ok tt)
          × Tried providers (chance ∷ cs) w (dispatch {E = E} chance providers i (popped w)).1 i
      tried = dispatch-tried cs w i (ready i in_l)

      D : Dispatched E providers (popped w) i (dispatch {E = E} chance providers i (popped w)).1.db
      D = dispatch-Dispatched E chance providers i (popped w)

      still_waiting : Waiting E (remove i l) (E.redis.bzpopmin queue_key w.redis).1
      still_waiting = record {
        members = λ m y at_m. elim (Bytes-discrete (str i) m) [
          | yes same ↦ absurd (
              none≢some (
                sym (E.redis.pop_removed queue_key w.redis (str i) x e)
                ∙ ap (E.redis.score (E.redis.bzpopmin queue_key w.redis).1 queue_key) same
                ∙ at_m))
          | no differs ↦
              let before = sym (E.redis.pop_other queue_key w.redis (str i) m x e differs) ∙ at_m in
              let (j, in_l', is_j) = waiting.members m y before in
              (j, has-remove_ne i j l in_l' (λ same. differs (ap str same ∙ sym is_j)), is_j)
        ];
        present = λ j in_rest.
            let (in_l', apart) = has-remove i j l in_rest in
            let (y, at_j) = waiting.present j in_l' in
            (
              y,
              E.redis.pop_other queue_key w.redis (str i) (str j) x e
                    (λ same. apart (str-injective i j same))
                  ∙ at_j,
            );
      }

  pub round-Left :
      (l : List ℕ) (cs : List Chance) (w : World E)
      → length l ≤ length (chance ∷ cs)
      → Waiting E l w.redis
      → ((j : ℕ) → has j l ≡ true → Ready E w j)
      → (rest : List ℕ) × (length rest ≤ length cs)
        × Left E providers (chance ∷ cs) l rest w (worker_round {E = E} providers chance w).1
  round-Left l cs w room waiting ready =
      go (popping.total queue_key w.redis).0 (popping.total queue_key w.redis).1
    where
      go :
          (o : Option (Bytes × ℕ))
          → (E.redis.bzpopmin queue_key w.redis).0 ≡ ok o
          → (rest : List ℕ) × (length rest ≤ length cs)
            × Left E providers (chance ∷ cs) l rest w (worker_round {E = E} providers chance w).1
      go none e = ([], omega arith, idle-Left cs l w waiting e)
      go (some (m, x)) e =
          let (i, in_l, is_i) = waiting.members m x (E.redis.pop_score queue_key w.redis m x e) in
          let shorter = remove-shorter i l in_l in
          (
            remove i l,
            omega (arith, shorter, room),
            busy-Left cs l w i x waiting ready in_l (rw is_i at e),
          )
