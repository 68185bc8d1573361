-- ===== src/System/Requeued.antt =====
-- What a manual retry makes of the rows, whatever the database does.
use high_throughput_notifica.Prelude.{
  some_eq, none≢some, subst, ℕ, ◌+◌, ◌≡◌, refl, sym, ap, ◌∙◌, Option, none, some, [], ◌∷◌, ◌==◌,
}
use high_throughput_notifica.Exec.Ends.{Ends, seq-Ends, pure-Ends, if-Ends, Keeps-Ends, weaken-Ends}
use high_throughput_notifica.Model.Enums.{pending, queued, sent, status_value}
use high_throughput_notifica.Model.Row.{
  Notification, assign, assign_all, set_retry_count, set_error_code, set_next_retry_time,
  with_status,
}
use high_throughput_notifica.Services.{Services, World}
use high_throughput_notifica.Repository.Table.{
  row, Written, same, wrote, get_by_id-Ends, update_status-Ends,
}
use high_throughput_notifica.Queue.Frame.{enqueue-frame}
use high_throughput_notifica.Manager.{retry_notification, retry_found, requeue}
use high_throughput_notifica.System.Rows.{Rewritten}

-- The row that a manual retry of `n` leaves; `t` is the time of the write.
pub data Requeued (n m : Notification) : Type 0 where
  kept : m ≡ n → Requeued n m
  requeued :
      (t : Option ℕ)
      → m ≡ record n {
        status = status_value pending;
        retry_count = n.retry_count + 1;
        error_code = none;
        next_retry_time = none;
        mtime = t;
      }
      → Requeued n m

-- A row before and after: there is none at all, or one became the other.
pub data Moved (R : Notification → Notification → Type 0) (before after : Option Notification)
    : Type 0 where
  absent : before ≡ none → after ≡ none → Moved R before after
  moved : (n m : Notification) → before ≡ some n → after ≡ some m → R n m → Moved R before after

pub Moved-Rewritten :
    (E : Services) (R : Notification → Notification → Type 0) (d d' : E.database.Db)
    → ((j : ℕ) → Moved R (E.database.table d j) (E.database.table d' j))
    → Rewritten E R d d'
Moved-Rewritten E R d d' rows j m at_j = go (rows j)
  where
    go :
        Moved R (E.database.table d j) (E.database.table d' j)
        → (n : Notification) × (E.database.table d j ≡ some n) × R n m
    go (absent gone still_gone) = absurd (none≢some (sym still_gone ∙ at_j))
    go (moved n k before after step) = (n, before, subst (R n) (some_eq (sym after ∙ at_j)) step)

stays : (before after : Option Notification) → after ≡ before → Moved Requeued before after
stays none after e = absent refl e
stays (some n) after e = moved n n refl e (kept refl)

module _ (E : Services) where
  -- Each row, under a manual retry in the world `w`.
  abbrev EachMoved : World E → World E → Type 0
  EachMoved w v = (j : ℕ) → Moved Requeued (row w j) (row v j)

  unmoved : (w v : World E) → ((j : ℕ) → row v j ≡ row w j) → EachMoved w v
  unmoved w v same_rows j = stays (row w j) (row v j) (same_rows j)

  requeue-Moved :
      (ms i : ℕ) (n : Notification) (v : World E)
      → row v i ≡ some n
      → Ends (λ r x. EachMoved v x) (requeue {E = E} ms i n) v
  unfolding requeue
  requeue-Moved ms i n v here =
      seq-Ends {P = λ r x. EachMoved v x} _ _ v
        (weaken-Ends _ v (update_status-Ends pending _ i v) (λ r x h j. go x j (h j))) (λ e x q. q)
        λ o x q.
          seq-Ends {P = λ r y. EachMoved v y} _ _ x
            (Keeps-Ends _ x
              (enqueue-frame E (λ d b s. (j : ℕ) → Moved Requeued (row v j) (E.database.table d j))
                ms i n.priority)
              q)
            (λ e y c. c) λ b y c. pure-Ends _ y c
    where
      go :
          (x : World E) (j : ℕ)
          → Written pending
              (set_retry_count (n.retry_count + 1)
                ∷ set_error_code none
                ∷ set_next_retry_time none
                ∷ [])
              (i ≡ j)
              (row v j)
              (row x j)
          → Moved Requeued (row v j) (row x j)
      go x j (same e) = stays (row v j) (row x j) e
      go x j (wrote k t e before after) =
          let is_n : n ≡ k = some_eq (sym here ∙ ap (row v) e ∙ before) in
          moved k _ before after (
            requeued t (
              unfold with_status assign_all assign in
              ap
                (λ (c : Notification). record k {
                  status = status_value pending;
                  retry_count = c.retry_count + 1;
                  error_code = none;
                  next_retry_time = none;
                  mtime = t;
                })
                is_n))

  retry_found-Moved :
      (ms i : ℕ) (o : Option Notification) (v : World E)
      → row v i ≡ o
      → Ends (λ r x. EachMoved v x) (retry_found {E = E} ms i o) v
  unfolding retry_found
  retry_found-Moved ms i none v here = pure-Ends _ v (unmoved v v (λ j. refl))
  retry_found-Moved ms i (some n) v here =
      if-Ends (n.status == status_value sent) _ _ v (λ _. pure-Ends _ v (unmoved v v (λ j. refl)))
        λ _.
          if-Ends (n.status == status_value queued) _ _ v
            (λ _. pure-Ends _ v (unmoved v v (λ j. refl))) (λ _. requeue-Moved ms i n v here)

  pub retry_notification-Moved :
      (ms i : ℕ) (w : World E) → Ends (λ r x. EachMoved w x) (retry_notification {E = E} ms i) w
  unfolding retry_notification
  retry_notification-Moved ms i w =
      seq-Ends _ _ w (get_by_id-Ends i w) (λ e v q. unmoved w v q.0)
        λ o v q.
          weaken-Ends _ v (retry_found-Moved ms i o v (q.0 i ∙ sym (q.1 o refl)))
            λ r x c j. subst (λ before. Moved Requeued before (row x j)) (q.0 j) (c j)

  pub retry_notification-Rewritten :
      (ms i : ℕ) (w : World E) → Rewritten E Requeued w.db (retry_notification {E = E} ms i w).1.db
  retry_notification-Rewritten ms i w =
      Moved-Rewritten E Requeued w.db _ (retry_notification-Moved ms i w).at
