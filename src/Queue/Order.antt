-- ===== src/Queue/Order.antt =====
-- The order in which identifiers leave the queue. Its scores order the entries by priority and then by
-- time as long as the times of the entries lie in one window of 10 ^ 12 milliseconds, some 31 years.
use high_throughput_notifica.Prelude.{
  ℕ, ◌+◌, ◌^◌, ◌≤◌, ◌<◌, ◌≡◌, ◌≢◌, ◌⊎◌, sym, ap, ◌∙◌, Option, none, some, arith,
}
use high_throughput_notifica.Exec.{Result, ok}
use high_throughput_notifica.Exec.Ends.{Ends, bind-Ends, lift-Ends, pure-Ends, try-Ends}
use high_throughput_notifica.Exec.Results.{ok≢err, ok-injective}
use high_throughput_notifica.Decimal.{Bytes, str, int, int-str}
use high_throughput_notifica.Services.{Services, World, on_redis}
use high_throughput_notifica.Queue.{queue_key, score_of, dequeue, member_id}

-- The time of an entry, in the window that begins at `start`.
abbrev pub InWindow : ℕ → ℕ → Type 0
InWindow start time = (start ≤ time) × (time < start + 10 ^ 12)

-- A member of the sorted set that `enqueue` has made in the window.
pub record Entry (start : ℕ) (m : Bytes) (x : ℕ) : Type 0 where
  pub id : ℕ
  pub priority : ℕ
  pub time : ℕ
  pub is_id : m ≡ str id
  pub is_score : x ≡ score_of priority time
  pub in_window : InWindow start time

module _ {E : Services} where
  abbrev pub queued_at : World E → ℕ → Option ℕ
  queued_at w i = E.redis.score w.redis queue_key (str i)

  abbrev pub Entries : ℕ → World E → Type 0
  Entries start w =
      (m : Bytes) (x : ℕ) → E.redis.score w.redis queue_key m ≡ some x → Entry start m x

-- The identifier `i` was taken out of the queue of `w`, which is now that of `v`: it was there, it is
-- gone, no other one was before it, and the others are still there.
pub record Taken (E : Services) (start : ℕ) (w : World E) (i : ℕ) (v : World E) : Type 0 where
  pub priority : ℕ
  pub time : ℕ
  pub was : queued_at {E = E} w i ≡ some (score_of priority time)
  pub gone : queued_at {E = E} v i ≡ none
  pub first :
      (k q t : ℕ)
      → InWindow start t
      → queued_at {E = E} w k ≡ some (score_of q t)
      → (priority < q) ⊎ ((priority ≡ q) × (time ≤ t))
  pub others :
      (m : Bytes)
      → str i ≢ m
      → E.redis.score v.redis queue_key m ≡ E.redis.score w.redis queue_key m

-- The order of the scores is the order of the priorities, then of the times.
score_lex :
    (start p t q u : ℕ)
    → InWindow start t
    → InWindow start u
    → score_of p t ≤ score_of q u
    → (p < q) ⊎ ((p ≡ q) × (t ≤ u))
unfolding score_of
score_lex start p t q u wt wu h = grind arith

module _ (E : Services) (start : ℕ) (w : World E) (entries : Entries {E = E} start w) where
  abbrev After : Result (Option ℕ) → World E → Type 0
  After r v = (i : ℕ) → r ≡ ok (some i) → Taken E start w i v

  none≢some {ℓ} : {A : Type ℓ} {a : A} → ¬ (◌≡◌ {A = Result (Option A)} (ok none) (ok (some a)))
  none≢some p = cc

  ok_some-injective {ℓ} :
      {A : Type ℓ} {a b : A} → ◌≡◌ {A = Result (Option A)} (ok (some a)) (ok (some b)) → a ≡ b
  ok_some-injective p = cc

  taken :
      (m : Bytes) (x : ℕ)
      → (E.redis.bzpopmin queue_key w.redis).0 ≡ ok (some (m, x))
      → (entry : Entry start m x) (i : ℕ) → int m ≡ ok i
      → Taken E start w i (record w { redis = (E.redis.bzpopmin queue_key w.redis).1 })
  taken m x popped entry i read =
      let id_i : entry.id ≡ i =
        ok-injective (sym (int-str entry.id) ∙ ap int (sym entry.is_id) ∙ read) in
      let m_i : m ≡ str i = entry.is_id ∙ ap str id_i in
      record {
        priority = entry.priority;
        time = entry.time;
        was =
            ap (E.redis.score w.redis queue_key) (sym m_i)
            ∙ E.redis.pop_score queue_key w.redis m x popped
            ∙ ap some entry.is_score;
        gone =
            ap (E.redis.score (E.redis.bzpopmin queue_key w.redis).1 queue_key) (sym m_i)
            ∙ E.redis.pop_removed queue_key w.redis m x popped;
        first = λ k q t inside there. score_lex start _ _ q t entry.in_window inside (
            rw (← entry.is_score) (E.redis.pop_least queue_key w.redis m (str k) x _ popped there));
        others =
            λ k other. E.redis.pop_other queue_key w.redis m k x popped (λ e. other (sym m_i ∙ e));
      }

  dequeue-After : Ends After (dequeue {E = E}) w
  unfolding dequeue on_redis member_id
  dequeue-After =
      try-Ends _ _ w
        (bind-Ends {Q = After} _ _ w (λ e raised i p. absurd (ok≢err p)) λ o popped. go o popped)
        (λ a t h. h) (λ e t h. pure-Ends none t (λ i p. absurd (none≢some p)))
    where
      v : World E
      v = record w { redis = (E.redis.bzpopmin queue_key w.redis).1 }

      go :
          (o : Option (Bytes × ℕ))
          → (E.redis.bzpopmin queue_key w.redis).0 ≡ ok o
          → Ends After (member_id o) v
      go none popped = pure-Ends none v (λ i p. absurd (none≢some p))
      go (some (m, x)) popped =
          lift-Ends (int m) _ v (λ e raised i p. absurd (ok≢err p))
            λ id read. pure-Ends (some id) v λ i p. rw (← ok_some-injective p) (
              taken m x popped (entries m x (E.redis.pop_score queue_key w.redis m x popped)) id
                read)

-- On a queue of entries whose times lie in one window, the identifier that `dequeue` returns was in the
-- queue and is no more; every other entry has a greater priority number, or the same one and a time
-- that is not before; and the other entries stay.
pub dequeue-Taken :
    (E : Services) (start : ℕ) (w : World E) (i : ℕ)
    → Entries {E = E} start w
    → (dequeue {E = E} w).0 ≡ ok (some i)
    → Taken E start w i (dequeue {E = E} w).1
dequeue-Taken E start w i entries e = (dequeue-After E start w entries).at i e
