-- ===== src/Repository/Total.antt =====
-- The repository on a database that answers: `update_status` returns, and writes what was asked.
use mathlib.Core.Option.{some-injective}
use high_throughput_notifica.Prelude.{
  some≢none, ℕ, ◌≡◌, refl, sym, ap, ◌∙◌, Option, none, some, List, ◌==◌, ==_refl, if◌then◌else◌,
}
use high_throughput_notifica.Exec.{Exception, Result, ok, err}
use high_throughput_notifica.Exec.Ends.{Ends, bind-Ends, pure-Ends, weaken-Ends}
use high_throughput_notifica.Model.Enums.{NotificationStatus}
use high_throughput_notifica.Model.Row.{Notification, Assignment, with_status}
use high_throughput_notifica.Services.{Services, Reliable, World, dirty, on_db}
use high_throughput_notifica.Repository.{get_by_id, save_status, update_status}
use high_throughput_notifica.Repository.Table.{row, with_status-id}

ok≢err {ℓ} : {A : Type ℓ} {a : A} {e : Exception} {r : Result A} → r ≡ ok a → r ≡ err e → ⊥
ok≢err p q = cc

-- After a write of a status to the row `i` of `w`, which is `n`.
pub record Wrote (E : Services) (w : World E) (i : ℕ) (m : Notification)
    (r : Result (Option Notification)) (v : World E) : Type 0 where
  pub returned : (o : Option Notification) × (r ≡ ok o)
  pub result : r ≡ ok (row v i)
  pub at_row : (t : Option ℕ) × (row v i ≡ some (record m { mtime = t }))
  pub broker : v.broker ≡ w.broker
  pub redis : v.redis ≡ w.redis
  pub outside : v.outside ≡ w.outside

module _ (E : Services) (R : Reliable E.database) (status : NotificationStatus)
    (kwargs : List Assignment) where
  open E.database use {table, select, commit, refresh}

  save_status-Wrote :
      (n : Notification) (w : World E)
      → row w n.id ≡ some n
      → Ends
          (λ r v. Wrote E w n.id (with_status n status kwargs) r v)
          (save_status status kwargs (some n))
          w
  unfolding save_status on_db
  save_status-Wrote n w h =
      bind-Ends _ _ w (λ e raised. absurd (ok≢err total raised))
        λ i done.
          let at_id = stored i done in
          bind-Ends _ _ _
            (λ e raised. absurd (
              ok≢err (R.refresh_total i _ _ (E.database.dirty_ok n' w.db i i done ∙ hit i done))
                raised))
            (λ m found. pure-Ends _ _ (record {
              returned = (some m, refl);
              result = ap ok (sym (reloaded i m done found));
              at_row = (some (E.database.now w.db), at_id);
              broker = refl;
              redis = refl;
              outside = refl;
            }))
    where
      n' : Notification
      n' = with_status n status kwargs

      n'_id : n'.id ≡ n.id
      n'_id = with_status-id n status kwargs

      total : (commit (dirty n') w.db).0 ≡ ok n'.id
      total = R.dirty_total n' n w.db (ap (row w) n'_id ∙ h)

      hit :
          (i : ℕ)
          → (commit (dirty n') w.db).0 ≡ ok i
          → (if n'.id == i
              then some (record n' { mtime = some (E.database.now w.db) })
              else table w.db i)
            ≡ some (record n' { mtime = some (E.database.now w.db) })
      hit i done = rw (E.database.dirty_id n' w.db i done, ==_refl)

      stored :
          (i : ℕ)
          → (commit (dirty n') w.db).0 ≡ ok i
          → table (refresh i (commit (dirty n') w.db).1).1 n.id
            ≡ some (record n' { mtime = some (E.database.now w.db) })
      stored i done =
          E.database.refresh_keeps i n.id _
          ∙ E.database.dirty_ok n' w.db i n.id done
          ∙ rw (n'_id, ==_refl)

      reloaded :
          (i : ℕ) (m : Notification)
          → (commit (dirty n') w.db).0 ≡ ok i
          → (refresh i (commit (dirty n') w.db).1).0 ≡ ok m
          → table (refresh i (commit (dirty n') w.db).1).1 n.id ≡ some m
      reloaded i m done found =
          let same : n.id ≡ i = sym n'_id ∙ sym (E.database.dirty_id n' w.db i done) in
          E.database.refresh_keeps i n.id _
          ∙ ap (table (commit (dirty n') w.db).1) same
          ∙ E.database.refresh_ok i _ m found

  pub update_status-Wrote :
      (i : ℕ) (n : Notification) (w : World E)
      → row w i ≡ some n
      → Ends
          (λ r v. Wrote E w i (with_status n status kwargs) r v)
          (update_status i status kwargs)
          w
  unfolding update_status get_by_id on_db
  update_status-Wrote i n w h =
      bind-Ends _ _ w (λ e raised. absurd (ok≢err (R.select_total i w.db) raised))
        (λ o found. go o (sym (E.database.select_ok i w.db o found)))
    where
      n_id : n.id ≡ i
      n_id = E.database.table_id i w.db n h

      w' : World E
      w' = record w { db = (select i w.db).1 }

      go :
          (o : Option Notification)
          → row w i ≡ o
          → Ends
              (λ r v. Wrote E w i (with_status n status kwargs) r v)
              (save_status status kwargs o)
              w'
      go none e = absurd (some≢none (sym h ∙ e))
      go (some m) e =
          let same : n ≡ m = some-injective n m (sym h ∙ e) in
          let kept : row w' n.id ≡ some n =
            E.database.select_keeps i n.id w.db ∙ ap (row w) n_id ∙ h in
          rw (← same) (
            weaken-Ends _ w' (save_status-Wrote n w' kept) λ r v p. record {
              returned = p.returned;
              result = p.result ∙ ap (λ j. ok (row v j)) n_id;
              at_row = (p.at_row.0, ap (row v) (sym n_id) ∙ p.at_row.1);
              broker = p.broker;
              redis = p.redis;
              outside = p.outside;
            })

-- What a read finds on a database that answers.
pub record Read (E : Services) (w : World E) (i : ℕ) (r : Result (Option Notification))
    (v : World E) : Type 0 where
  pub found : r ≡ ok (row w i)
  pub rows : (j : ℕ) → row v j ≡ row w j
  pub broker : v.broker ≡ w.broker
  pub redis : v.redis ≡ w.redis
  pub outside : v.outside ≡ w.outside

pub get_by_id-Read :
    (E : Services) (R : Reliable E.database) (i : ℕ) (w : World E)
    → Ends (λ r v. Read E w i r v) (get_by_id i) w
unfolding get_by_id on_db
get_by_id-Read E R i w = record {
  at = record {
    found = R.select_total i w.db;
    rows = λ j. E.database.select_keeps i j w.db;
    broker = refl;
    redis = refl;
    outside = refl;
  };
}
