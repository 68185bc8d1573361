-- ===== src/Manager/Rows.antt =====
-- The rows that a request makes, and the rows that were there before.
use high_throughput_notifica.Prelude.{
  some≢none, ℕ, ◌≡◌, sym, ap, ◌∙◌, List, some, ◌==◌, ==_iff, Bool-cases, inl, inr,
}
use high_throughput_notifica.Exec.Keeps.{Keeps}
use high_throughput_notifica.Model.Enums.{NotificationChannel}
use high_throughput_notifica.Model.Row.{Notification}
use high_throughput_notifica.Services.{Services, World}
use high_throughput_notifica.Repository.Table.{row}
use high_throughput_notifica.Request.{NotificationCreate}
use high_throughput_notifica.Manager.{create_channels, create_notification}
use high_throughput_notifica.Manager.Inserts.{
  InsertSafe, create_channels-Rows, create_notification-Rows,
}

module _ (E : Services) (j : ℕ) (n : Notification) where
  abbrev HasRow : E.database.Db → Type 0
  HasRow d = E.database.table d j ≡ some n

  abbrev Has : World E → Type 0
  Has w = row w j ≡ some n

  -- An insert takes a free identifier.
  pub has-InsertSafe : InsertSafe E HasRow
  has-InsertSafe = record {
    stable = λ d d' same h. same j ∙ h;
    inserts = λ p m d i draft done h.
        let stored = E.database.new_ok m d i j done in
        elim (Bool-cases (i == j)) [
          | inl hit ↦ absurd (
              some≢none (
                sym h
                ∙ ap (E.database.table d) (sym ((==_iff i j).0 hit))
                ∙ E.database.new_fresh m d i done))
          | inr miss ↦ (rw miss at stored) ∙ h
        ];
  }

  pub create_channels-Has :
      (clock : ℕ → ℕ) (k : ℕ) (p : NotificationCreate) (cs : List NotificationChannel)
      (created : List Notification)
      → Keeps Has (create_channels {E = E} clock k p cs created)
  create_channels-Has clock k p cs created =
      create_channels-Rows E HasRow has-InsertSafe p clock k cs created

  pub create_notification-Has :
      (clock : ℕ → ℕ) (p : NotificationCreate) → Keeps Has (create_notification {E = E} clock p)
  create_notification-Has clock p = create_notification-Rows E HasRow has-InsertSafe p clock

-- A request changes no row that was there, whether it returns or raises.
pub create_notification-rows :
    (E : Services) (clock : ℕ → ℕ) (p : NotificationCreate) (w : World E) (j : ℕ) (n : Notification)
    → row w j ≡ some n
    → row (create_notification {E = E} clock p w).1 j ≡ some n
create_notification-rows E clock p w j n h = (create_notification-Has E j n clock p).at w h
