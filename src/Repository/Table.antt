-- ===== src/Repository/Table.antt =====
-- What the repository's calls do to the table, whether they return or raise.
use high_throughput_notifica.Prelude.{
  ℕ, ◌≡◌, refl, sym, ◌∙◌, inl, inr, Option, none, some, List, [], ◌∷◌, ◌==◌, ==_iff, Bool-cases, ap,
}
use high_throughput_notifica.Exec.Ends.{Ends, bind-Ends, pure-Ends, weaken-Ends}
use high_throughput_notifica.Exec.{ok}
use high_throughput_notifica.Model.Enums.{NotificationStatus}
use high_throughput_notifica.Model.Row.{
  Notification, Assignment, assign_all, with_status, set_retry_count, set_error_code,
  set_next_retry_time, set_external_id, set_stime,
}
use high_throughput_notifica.Services.{Services, World, Change, dirty, on_db}
use high_throughput_notifica.Repository.{get_by_id, save_status, update_status}

assign_all-id : (n : Notification) (kwargs : List Assignment) → (assign_all n kwargs).id ≡ n.id
unfolding assign_all
assign_all-id n [] = refl
assign_all-id n (set_retry_count v ∷ rest) = assign_all-id _ rest
assign_all-id n (set_error_code v ∷ rest) = assign_all-id _ rest
assign_all-id n (set_next_retry_time v ∷ rest) = assign_all-id _ rest
assign_all-id n (set_external_id v ∷ rest) = assign_all-id _ rest
assign_all-id n (set_stime v ∷ rest) = assign_all-id _ rest

pub with_status-id :
    (n : Notification) (status : NotificationStatus) (kwargs : List Assignment)
    → (with_status n status kwargs).id ≡ n.id
unfolding with_status
with_status-id n status kwargs = assign_all-id _ kwargs

-- A row before and after a write of a status: as it was, or set and stamped, where `Here` says that
-- the row is the one that was meant.
pub data Written (status : NotificationStatus) (kwargs : List Assignment) (Here : Type 0)
    (before after : Option Notification) : Type 0 where
  same : after ≡ before → Written status kwargs Here before after
  wrote :
      (n : Notification) (t : Option ℕ)
      → Here
      → before ≡ some n
      → after ≡ some (record (with_status n status kwargs) { mtime = t })
      → Written status kwargs Here before after

Written-of :
    {status : NotificationStatus} {kwargs : List Assignment} {Here There : Type 0}
    {before before' after : Option Notification}
    → before' ≡ before
    → (Here → There)
    → Written status kwargs Here before' after
    → Written status kwargs There before after
Written-of e f (same p) = same (p ∙ e)
Written-of e f (wrote n t here b a) = wrote n t (f here) (sym e ∙ b) a

-- The row of an identifier in the table of a world.
abbrev pub row : {E : Services} → World E → ℕ → Option Notification
row {E} w i = E.database.table w.db i

module _ {E : Services} (status : NotificationStatus) (kwargs : List Assignment) where
  open E.database use {table, select, commit, refresh, select_ok, select_keeps}

  -- After the commit the refresh leaves the table alone.
  save_status-Ends :
      (n : Notification) (w : World E)
      → row w n.id ≡ some n
      → Ends
          (λ r w'. (j : ℕ) → Written status kwargs (n.id ≡ j) (row w j) (row w' j))
          (save_status status kwargs (some n))
          w
  unfolding save_status on_db
  save_status-Ends n w h =
      bind-Ends _ _ w (λ e raised j. same (E.database.commit_err change w.db e j raised))
        λ i done.
          bind-Ends _ _ _ (λ e _ j. stamped i done j) (λ s _. pure-Ends _ _ (λ j. stamped i done j))
    where
      n' : Notification
      n' = with_status n status kwargs

      change : Change
      change = dirty n'

      stamped :
          (i : ℕ)
          → (commit change w.db).0 ≡ ok i
          → (j : ℕ)
          → Written status kwargs
              (n.id ≡ j)
              (row w j)
              (table (refresh i (commit change w.db).1).1 j)
      stamped i done j =
          let after =
            E.database.refresh_keeps i j (commit change w.db).1
            ∙ E.database.dirty_ok n' w.db i j done in
          elim (Bool-cases (n'.id == j)) [
            | inl hit ↦
                let e : n.id ≡ j = sym (with_status-id n status kwargs) ∙ (==_iff n'.id j).0 hit in
                wrote n (some (E.database.now w.db)) e (ap (row w) (sym e) ∙ h) (rw hit at after)
            | inr miss ↦ same (rw miss at after)
          ]

  -- Whatever happens, `update_status` writes no other row, and its own row only as asked.
  pub update_status-Ends :
      (i : ℕ) (w : World E)
      → Ends
          (λ r w'. (j : ℕ) → Written status kwargs (i ≡ j) (row w j) (row w' j))
          (update_status i status kwargs)
          w
  unfolding update_status get_by_id on_db
  update_status-Ends i w =
      bind-Ends _ _ w (λ e _ j. same (select_keeps i j w.db)) (λ o found. go o found)
    where
      w' : World E
      w' = record w { db = (select i w.db).1 }

      go :
          (o : Option Notification)
          → (select i w.db).0 ≡ ok o
          → Ends
              (λ r w''. (j : ℕ) → Written status kwargs (i ≡ j) (row w j) (row w'' j))
              (save_status status kwargs o)
              w'
      go none found = unfold save_status in pure-Ends _ w' (λ j. same (select_keeps i j w.db))
      go (some n) found =
          let here : row w i ≡ some n = sym (select_ok i w.db (some n) found) in
          let n_id : n.id ≡ i = E.database.table_id i w.db n here in
          weaken-Ends _ w'
            (save_status-Ends n w' (select_keeps i n.id w.db ∙ ap (row w) n_id ∙ here))
            (λ r w'' h j. Written-of (select_keeps i j w.db) (λ e. sym n_id ∙ e) (h j))

-- A read finds the row of its identifier, and changes none.
pub get_by_id-Ends :
    {E : Services} (i : ℕ) (w : World E)
    → Ends
        (λ r v.
          ((j : ℕ) → row v j ≡ row w j) × ((o : Option Notification) → r ≡ ok o → o ≡ row w i))
        (get_by_id i)
        w
unfolding get_by_id on_db
get_by_id-Ends {E} i w = record {
  at = (λ j. E.database.select_keeps i j w.db, λ o found. E.database.select_ok i w.db o found);
}
