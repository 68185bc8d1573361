-- ===== src/Worker/Carried.antt =====
-- What every run of a worker leaves of the notifications.
use high_throughput_notifica.Prelude.{
  clash, ℕ, ◌≤◌, ◌≡◌, refl, sym, ap, ◌∙◌, String, Option, some, List, [], ◌∷◌, ◌==◌, ==_iff,
  Bool-cases, inl, inr, arith,
}
use high_throughput_notifica.Exec.{ok}
use high_throughput_notifica.Exec.Keeps.{Keeps, Keeps-pure, Keeps-bind}
use high_throughput_notifica.Exec.Ends.{Ends, seq-Ends, pure-Ends, try_pure-returns}
use high_throughput_notifica.Exec.Results.{returned≢err}
use high_throughput_notifica.Model.Row.{Notification}
use high_throughput_notifica.Services.{Services, World}
use high_throughput_notifica.Repository.Table.{row}
use high_throughput_notifica.Provider.{Providers}
use high_throughput_notifica.Dispatch.{Chance, dispatch}
use high_throughput_notifica.Dispatch.Lifecycle.{
  Progress, unchanged, marked_queued, marked_sent, marked_failed, marked_retrying,
}
use high_throughput_notifica.Dispatch.Progress.{dispatch-Dispatched}
use high_throughput_notifica.Worker.Rows.{worker_round-Rows}
use high_throughput_notifica.Worker.{worker_round, worker_loop}

-- `m` is `n` at a later time: the same message to the same recipient, tried as often or more often.
pub record Later (n m : Notification) : Type 0 where
  pub id : m.id ≡ n.id
  pub idempotency_key : m.idempotency_key ≡ n.idempotency_key
  pub event_type : m.event_type ≡ n.event_type
  pub channel : m.channel ≡ n.channel
  pub recipient : m.recipient ≡ n.recipient
  pub priority : m.priority ≡ n.priority
  pub content : m.content ≡ n.content
  pub retry_count : n.retry_count ≤ m.retry_count

pub Later-refl : (n : Notification) → Later n n
Later-refl n = record {
  id = refl;
  idempotency_key = refl;
  event_type = refl;
  channel = refl;
  recipient = refl;
  priority = refl;
  content = refl;
  retry_count = omega arith;
}

pub Later-trans : (n m k : Notification) → Later n m → Later m k → Later n k
Later-trans n m k p q = record {
  id = q.id ∙ p.id;
  idempotency_key = q.idempotency_key ∙ p.idempotency_key;
  event_type = q.event_type ∙ p.event_type;
  channel = q.channel ∙ p.channel;
  recipient = q.recipient ∙ p.recipient;
  priority = q.priority ∙ p.priority;
  content = q.content ∙ p.content;
  retry_count = omega (arith, p.retry_count, q.retry_count);
}

-- A change of the fields that a dispatch sets.
set-Later :
    (n : Notification) (status : ℕ) (error_code : Option ℕ) (retry_count : ℕ)
    (external_id : Option String) (mtime stime : Option ℕ)
    → n.retry_count ≤ retry_count
    → Later n (record n {
      status = status;
      error_code = error_code;
      retry_count = retry_count;
      external_id = external_id;
      mtime = mtime;
      stime = stime;
    })
set-Later n status error_code retry_count external_id mtime stime more = record {
  id = refl;
  idempotency_key = refl;
  event_type = refl;
  channel = refl;
  recipient = refl;
  priority = refl;
  content = refl;
  retry_count = more;
}

Progress-Later :
    {S : Type 0} (providers : Providers S) (n m : Notification) → Progress providers n m → Later n m
Progress-Later providers n m (unchanged e) = rw e (Later-refl n)
Progress-Later providers n m (marked_queued t e) = rw e (set-Later n _ _ _ _ _ _ (omega arith))
Progress-Later providers n m (marked_sent t x now e) = rw e (set-Later n _ _ _ _ _ _ (omega arith))
Progress-Later providers n m (marked_failed t code reason e) =
    rw e (set-Later n _ _ _ _ _ _ (omega arith))
Progress-Later providers n m (marked_retrying t code event known room e) =
    rw e (set-Later n _ _ _ _ _ _ (omega arith))

module _ (E : Services) (w : World E) where
  -- Every notification of `w` is still in the table, at a later time.
  abbrev pub Carried : E.database.Db → Type 0
  Carried d =
      (j : ℕ) (n : Notification)
      → row w j ≡ some n
      → (m : Notification) × (E.database.table d j ≡ some m) × Later n m

  dispatch-Carried :
      (chance : Chance) (providers : Providers E.Outside) (i : ℕ)
      → Keeps (λ v. Carried v.db) (dispatch {E = E} chance providers i)
  dispatch-Carried chance providers i = record { at = go }
    where
      go : (v : World E) → Carried v.db → Carried (dispatch {E = E} chance providers i v).1.db
      go v h j n here =
          let (m, stored, later) = h j n here in
          let D = dispatch-Dispatched E chance providers i v in
          elim (Bool-cases (i == j)) [
            | inl hit ↦
                let e : i ≡ j = (==_iff i j).0 hit in
                let (k, kept, step) = D.progress m (ap (row v) e ∙ stored) in
                (
                  k,
                  ap (E.database.table (dispatch {E = E} chance providers i v).1.db) (sym e) ∙ kept,
                  Later-trans n m k later (Progress-Later providers m k step),
                )
            | inr miss ↦
                (m, D.others j (λ e. absurd (clash ((==_iff i j).1 e) miss)) ∙ stored, later)
          ]

  pub worker_round-Carried :
      (providers : Providers E.Outside) (chance : Chance)
      → Keeps (λ v. Carried v.db) (worker_round {E = E} providers chance)
  worker_round-Carried providers chance =
      worker_round-Rows E Carried providers (λ c i. dispatch-Carried c providers i) chance

  worker_loop-rows :
      (providers : Providers E.Outside) (chances : List Chance)
      → Keeps (λ v. Carried v.db) (worker_loop {E = E} providers chances)
  unfolding worker_loop
  worker_loop-rows providers [] = Keeps-pure tt
  worker_loop-rows providers (chance ∷ rest) =
      Keeps-bind _ _ (worker_round-Carried providers chance) (λ _. worker_loop-rows providers rest)

module _ (E : Services) (providers : Providers E.Outside) where
  pub worker_round-returns :
      (chance : Chance) (w : World E)
      → Ends (λ r _. (b : Unit {0}) × (r ≡ ok b)) (worker_round {E = E} providers chance) w
  unfolding worker_round
  worker_round-returns chance w = try_pure-returns _ tt w

  worker_loop-returns :
      (chances : List Chance) (w : World E)
      → Ends (λ r _. (b : Unit {0}) × (r ≡ ok b)) (worker_loop {E = E} providers chances) w
  unfolding worker_loop
  worker_loop-returns [] w = pure-Ends tt w (tt, refl)
  worker_loop-returns (chance ∷ rest) w =
      seq-Ends _ _ w (worker_round-returns chance w) (λ e t p. absurd (returned≢err p))
        (λ _ t _. worker_loop-returns rest t)

-- However many rounds a worker makes, and whatever the services and the providers do in them: no
-- exception ends its loop; and every notification that was stored is stored after them, with the same
-- identifier, key, event, channel, recipient, priority and content, and no fewer retries.
pub worker_loop-Carried :
    (E : Services) (providers : Providers E.Outside) (chances : List Chance) (w : World E)
    → let (r, v) = worker_loop {E = E} providers chances w in
      ((b : Unit {0}) × (r ≡ ok b)) × Carried E w v.db
worker_loop-Carried E providers chances w = (
  (worker_loop-returns E providers chances w).at,
  (worker_loop-rows E w providers chances).at w (λ j n here. (n, here, Later-refl n)),
)
