-- ===== src/Dispatch/Held.antt =====
-- The table while a dispatch is under way: the rows of the others, and the row of the notification, as found
-- or marked as queued, on top of which one more write ends the dispatch.
use mathlib.Core.Option.{some-injective}
use high_throughput_notifica.Prelude.{
  ℕ, ◌≡◌, ◌≢◌, refl, sym, ap, ◌∙◌, Option, some, List, [], ◌∷◌, inl, inr, ◌⊎◌,
}
use high_throughput_notifica.Exec.Ends.{Ends, weaken-Ends}
use high_throughput_notifica.Model.Enums.{NotificationStatus, queued, status_value}
use high_throughput_notifica.Model.Row.{
  Notification, Assignment, set_retry_count, set_error_code, set_external_id, set_stime,
  set_next_retry_time, assign_all, with_status,
}
use high_throughput_notifica.Services.{Services, World}
use high_throughput_notifica.Provider.{Providers}
use high_throughput_notifica.Repository.{update_status}
use high_throughput_notifica.Repository.Table.{Written, same, wrote, row, update_status-Ends}
use high_throughput_notifica.Dispatch.Lifecycle.{Progress, unchanged, marked_queued}

-- The row while a dispatch of `n` is under way: as found, or marked as queued.
pub data Held (n : Notification) (o : Option Notification) : Type 0 where
  fresh : o ≡ some n → Held n o
  marked :
      (t : Option ℕ) → o ≡ some (record n { status = status_value queued; mtime = t }) → Held n o

assign_all-mtime :
    (n : Notification) (s : ℕ) (u t : Option ℕ) (kwargs : List Assignment)
    → ◌≡◌ {A = Notification}
        (record (assign_all (record n { status = s; mtime = u }) kwargs) { mtime = t })
        (record (assign_all (record n { status = s }) kwargs) { mtime = t })
unfolding assign_all
assign_all-mtime n s u t [] = refl
assign_all-mtime n s u t (set_retry_count v ∷ rest) =
    assign_all-mtime (record n { retry_count = v }) s u t rest
assign_all-mtime n s u t (set_error_code v ∷ rest) =
    assign_all-mtime (record n { error_code = v }) s u t rest
assign_all-mtime n s u t (set_next_retry_time v ∷ rest) =
    assign_all-mtime (record n { next_retry_time = v }) s u t rest
assign_all-mtime n s u t (set_external_id v ∷ rest) =
    assign_all-mtime (record n { external_id = v }) s u t rest
assign_all-mtime n s u t (set_stime v ∷ rest) = assign_all-mtime (record n { stime = v }) s u t rest

-- A write on top of the mark of the queue leaves no trace of the mark.
pub with_status-marked :
    (n n' : Notification) (status : NotificationStatus) (kwargs : List Assignment) (t : Option ℕ)
    → Held n (some n')
    → ◌≡◌ {A = Notification}
        (record (with_status n' status kwargs) { mtime = t })
        (record (with_status n status kwargs) { mtime = t })
with_status-marked n n' status kwargs t (fresh e) =
    ap (λ (m : Notification). record (with_status m status kwargs) { mtime = t })
      (some-injective _ _ e)
with_status-marked n n' status kwargs t (marked u e) =
    ap (λ (m : Notification). record (with_status m status kwargs) { mtime = t })
      (some-injective _ _ e)
    ∙ (unfold with_status in assign_all-mtime n (status_value status) u t kwargs)

pub Held-of : {n : Notification} {o o' : Option Notification} → o' ≡ o → Held n o → Held n o'
Held-of p (fresh e) = fresh (p ∙ e)
Held-of p (marked t e) = marked t (p ∙ e)

module _ (E : Services) (providers : Providers E.Outside) (w : World E) (i : ℕ)
    (n : Notification) where
  -- The other rows are those of `w`, and the row `i` is in the middle of its dispatch.
  pub record Under (d : E.database.Db) : Type 0 where
    pub others : (j : ℕ) → i ≢ j → E.database.table d j ≡ row w j
    pub held : Held n (E.database.table d i)

  -- After a write to the row `i`: it is as before, or it has what was asked.
  pub record Ending (status : NotificationStatus) (kwargs : List Assignment) (d : E.database.Db)
      : Type 0 where
    pub others : (j : ℕ) → i ≢ j → E.database.table d j ≡ row w j
    pub outcome :
        Held n (E.database.table d i)
        ⊎ ((t : Option ℕ) × (E.database.table d i
              ≡ some (record (with_status n status kwargs) { mtime = t })))

  pub record Done (d : E.database.Db) : Type 0 where
    pub others : (j : ℕ) → i ≢ j → E.database.table d j ≡ row w j
    pub new_row : (m : Notification) × (E.database.table d i ≡ some m) × Progress providers n m

  module _ (status : NotificationStatus) (kwargs : List Assignment) where
    other_row :
        {before after : Option Notification} {j : ℕ}
        → i ≢ j
        → Written status kwargs (i ≡ j) before after
        → after ≡ before
    other_row ne (same p) = p
    other_row ne (wrote n t here b a) = absurd (ne here)

    own_row :
        {before after : Option Notification}
        → Held n before
        → Written status kwargs (i ≡ i) before after
        → Held n after
          ⊎ ((t : Option ℕ) × (after ≡ some (record (with_status n status kwargs) { mtime = t })))
    own_row h (same p) = inl (Held-of p h)
    own_row h (wrote n' t here b a) =
        inr (t, a ∙ ap some (with_status-marked n n' status kwargs t (Held-of (sym b) h)))

    pub update_status-Ending :
        (v : World E)
        → Under v.db
        → Ends (λ _ v'. Ending status kwargs v'.db) (update_status i status kwargs) v
    update_status-Ending v u = weaken-Ends _ v (update_status-Ends status kwargs i v) λ r v' h.
        record {
          others = λ j ne. other_row ne (h j) ∙ u.others j ne;
          outcome = own_row u.held (h i);
        }

  pub Held-Progress :
      {o : Option Notification}
      → Held n o
      → (m : Notification) × (o ≡ some m) × Progress providers n m
  Held-Progress (fresh e) = (n, e, unchanged refl)
  Held-Progress (marked t e) =
      (record n { status = status_value queued; mtime = t }, e, marked_queued t refl)

  pub Under-Done : (d : E.database.Db) → Under d → Done d
  Under-Done d u = record { others = u.others; new_row = Held-Progress u.held }

  -- A write of a status that the table of steps allows ends a dispatch.
  pub Ending-Done :
      (status : NotificationStatus) (kwargs : List Assignment) (d : E.database.Db)
      → ((t : Option ℕ) → Progress providers n (record (with_status n status kwargs) { mtime = t }))
      → Ending status kwargs d
      → Done d
  Ending-Done status kwargs d step e = record { others = e.others; new_row = go e.outcome }
    where
      go :
          {o : Option Notification}
          → Held n o
            ⊎ ((t : Option ℕ) × (o ≡ some (record (with_status n status kwargs) { mtime = t })))
          → (m : Notification) × (o ≡ some m) × Progress providers n m
      go (inl h) = Held-Progress h
      go (inr (t, p)) = (record (with_status n status kwargs) { mtime = t }, p, step t)
