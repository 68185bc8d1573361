-- ===== src/System/Rows.antt =====
-- A property of the table, over a step of the running program.
use high_throughput_notifica.Prelude.{
  ℕ, ◌≡◌, refl, sym, ◌∙◌, ◌⊎◌, clash, none≢some, Bool, true, false, Option-cases, Bool-cases, inl,
  inr, some, some_eq, subst, ◌==◌, ==_iff, ap,
}
use high_throughput_notifica.Exec.Keeps.{Keeps}
use high_throughput_notifica.Model.Row.{Notification}
use high_throughput_notifica.Services.{Services, World}
use high_throughput_notifica.Repository.Table.{row}
use high_throughput_notifica.Manager.{get_notification, retry_notification}
use high_throughput_notifica.Manager.Inserts.{InsertSafe, get_by_id-Rows, create_notification-Rows}
use high_throughput_notifica.Manager.Every.{Every}
use high_throughput_notifica.Manager.Listing.Page.{list_notifications-Page}
use high_throughput_notifica.Handler.Rows.{on_new_event-Rows, on_retry_event-Rows}
use high_throughput_notifica.Provider.{Providers}
use high_throughput_notifica.Dispatch.{Chance, dispatch}
use high_throughput_notifica.Dispatch.Lifecycle.{Progress, unchanged}
use high_throughput_notifica.Dispatch.Progress.{dispatch-Dispatched}
use high_throughput_notifica.Worker.Rows.{worker_round-Rows}
use high_throughput_notifica.System.{
  Step, posted, consumed, expired, retried, worked, read, listed, elsewhere,
}

-- Every row of the table `d'` comes from the row of `d` under the same identifier.
abbrev pub Rewritten :
    (E : Services) → (Notification → Notification → Type 0) → (d d' : E.database.Db) → Type 0
Rewritten E R d d' =
    (j : ℕ) (m : Notification)
    → E.database.table d' j ≡ some m
    → (n : Notification) × (E.database.table d j ≡ some n) × R n m

pub Rewritten-Every :
    (E : Services) (R : Notification → Notification → Type 0) (P : Notification → Type 0)
    → ((n m : Notification) → R n m → P n → P m)
    → (d d' : E.database.Db) → Rewritten E R d d'
    → Every E P d
    → Every E P d'
Rewritten-Every E R P keeps d d' made h j m at_j =
    let (n, before, step) = made j m at_j in keeps n m step (h j n before)

module _ {E : Services} {providers : Providers E.Outside} where
  abbrev pub by_hand : {w v : World E} → Step providers w v → Bool
  by_hand (retried ms i e) = true
  by_hand (posted clock p e) = false
  by_hand (consumed answer loads clock message e) = false
  by_hand (expired answer ms message e) = false
  by_hand (worked chance e) = false
  by_hand (read i e) = false
  by_hand (listed L f limit offset e) = false
  by_hand (elsewhere e) = false

-- A dispatch takes its row one step further, and leaves the others.
pub dispatch-Rewritten :
    (E : Services) (chance : Chance) (providers : Providers E.Outside) (i : ℕ) (w : World E)
    → Rewritten E (Progress providers) w.db (dispatch {E = E} chance providers i w).1.db
dispatch-Rewritten E chance providers i w j m at_j =
    let D = dispatch-Dispatched E chance providers i w in
    elim (Bool-cases (i == j)) [
      | inl hit ↦
          let e : i ≡ j = (==_iff i j).0 hit in
          let at_i = ap (E.database.table (dispatch {E = E} chance providers i w).1.db) e ∙ at_j in
          elim (Option-cases (row w i)) [
            | inl gone ↦ absurd (none≢some (sym (D.absent gone) ∙ at_i))
            | inr (n, here) ↦
                let (k, kept, step) = D.progress n here in
                (
                  n,
                  ap (row w) (sym e) ∙ here,
                  subst (Progress providers n) (some_eq (sym kept ∙ at_i)) step,
                )
          ]
      | inr miss ↦ (m, sym (D.others j (λ e. clash ((==_iff i j).1 e) miss)) ∙ at_j, unchanged refl)
    ]

module _ (E : Services) (Q : E.database.Db → Type 0) (safe : InsertSafe E Q)
    (providers : Providers E.Outside)
    (progress : (d d' : E.database.Db) → Rewritten E (Progress providers) d d' → Q d → Q d') where
  dispatch-Rows :
      (chance : Chance) (i : ℕ) → Keeps (λ w. Q w.db) (dispatch {E = E} chance providers i)
  dispatch-Rows chance i = record {
    at = λ w h. progress w.db _ (dispatch-Rewritten E chance providers i w) h;
  }

  -- A step keeps the property, unless it is a retry by hand and those do not.
  pub Step-Rows :
      {w v : World E} (s : Step providers w v)
      → (by_hand s ≡ false) ⊎ ((ms i : ℕ) → Keeps (λ u. Q u.db) (retry_notification {E = E} ms i))
      → Q w.db
      → Q v.db
  unfolding get_notification
  Step-Rows (retried ms i e) (inl auto) h = absurd (clash refl auto)
  Step-Rows {w} (retried ms i e) (inr keeps) h = rw e ((keeps ms i).at w h)
  Step-Rows {w} (posted clock p e) manual h =
      rw e ((create_notification-Rows E Q safe p clock).at w h)
  Step-Rows {w} (consumed answer loads clock message e) manual h = rw e (
      (on_new_event-Rows E Q (get_by_id-Rows E Q safe) answer
          (λ clock p. create_notification-Rows E Q safe p clock) loads clock message).at
        w h)
  Step-Rows {w} (expired answer ms message e) manual h =
      rw e ((on_retry_event-Rows E Q (get_by_id-Rows E Q safe) answer ms message).at w h)
  Step-Rows {w} (worked chance e) manual h =
      rw e ((worker_round-Rows E Q providers dispatch-Rows chance).at w h)
  Step-Rows {w} (read i e) manual h = rw e ((get_by_id-Rows E Q safe i).at w h)
  Step-Rows {w} (listed L f limit offset e) manual h =
      rw e (safe.stable w.db _ (list_notifications-Page E L f limit offset w).0 h)
  Step-Rows {w} (elsewhere e) manual h = rw e h
