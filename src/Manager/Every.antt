-- ===== src/Manager/Every.antt =====
-- A property that every stored notification has, over the inserts of a request.
use high_throughput_notifica.Prelude.{
  some_eq, ℕ, ◌≡◌, sym, ◌∙◌, subst, Option, some, ◌==◌, Bool-cases, inl, inr,
}
use high_throughput_notifica.Model.Row.{Notification}
use high_throughput_notifica.Services.{Services}
use high_throughput_notifica.Request.{NotificationCreate}
use high_throughput_notifica.Manager.Inserts.{Drafted, InsertSafe}

abbrev pub Every : (E : Services) → (Notification → Type 0) → E.database.Db → Type 0
Every E P d = (j : ℕ) (n : Notification) → E.database.table d j ≡ some n → P n

pub Every-InsertSafe :
    (E : Services) (P : Notification → Type 0)
    → ((p : NotificationCreate) (m : Notification) (i : ℕ) (t : Option ℕ)
        → Drafted p m
        → P (record m { id = i; ctime = t }))
    → InsertSafe E (Every E P)
Every-InsertSafe E P fresh = record {
  stable = λ d d' same h j n at_j. h j n (sym (same j) ∙ at_j);
  inserts = λ p m d i draft done h j n at_j.
      let stored = sym (E.database.new_ok m d i j done) ∙ at_j in
      elim (Bool-cases (i == j)) [
        | inl hit ↦
            subst P (some_eq (rw hit at stored)) (fresh p m i (some (E.database.now d)) draft)
        | inr miss ↦ h j n (rw miss at stored)
      ];
}
