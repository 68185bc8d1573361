-- ===== src/System/Holding.antt =====
-- What a request leaves in an empty queue.
use high_throughput_notifica.Prelude.{
  ℕ, ◌≡◌, refl, sym, ap, ◌∙◌, subst, suc, true, false, some, List, [], ◌∷◌, ◌++◌, length, map,
  Bool-cases, inl, inr, arith,
}
use high_throughput_notifica.Decimal.{Bytes-discrete, str}
use high_throughput_notifica.Model.Row.{Notification}
use high_throughput_notifica.Services.{Services}
use high_throughput_notifica.Queue.{queue_key}
use high_throughput_notifica.Manager.Grows.{Adding}
use high_throughput_notifica.Manager.Queued.{zadd-Waits, zadd-own}
use high_throughput_notifica.Worker.Members.{has}
use high_throughput_notifica.Worker.Waiting.{Waiting}

abbrev pub ids : List Notification → List ℕ
ids l = map (λ (n : Notification). n.id) l

has-snoc_old :
    (i : ℕ) (l : List Notification) (n : Notification)
    → has i (ids l) ≡ true
    → has i (ids (l ++ n ∷ [])) ≡ true
unfolding has
has-snoc_old i [] n h = cc
has-snoc_old i (m ∷ l) n h = ground (arith, has-snoc_old i l n)

has-snoc_own : (l : List Notification) (n : Notification) → has n.id (ids (l ++ n ∷ [])) ≡ true
unfolding has
has-snoc_own [] n = ground arith
has-snoc_own (m ∷ l) n = ground (arith, has-snoc_own l n)

has-snoc_new :
    (i : ℕ) (l : List Notification) (n : Notification)
    → has i (ids (l ++ n ∷ [])) ≡ true
    → has i (ids l) ≡ false
    → i ≡ n.id
unfolding has
has-snoc_new i [] n h out = ground arith
has-snoc_new i (m ∷ l) n h out = ground (arith, has-snoc_new i l n)

module _ (E : Services) (adding : Adding E) where
  -- The queue holds these notifications and nothing else.
  abbrev pub Holds : List Notification → E.redis.State → Type 0
  Holds l s = Waiting E (ids l) s

  pub grow-Holds :
      (l : List Notification) (n : Notification) (x : ℕ) (s : E.redis.State)
      → Holds l s
      → Holds (l ++ n ∷ []) (E.redis.zadd_nx queue_key (str n.id) x s).1
  grow-Holds l n x s waiting = record {
    members = λ m y at_m. elim (Bytes-discrete (str n.id) m) [
      | yes own ↦ (n.id, has-snoc_own l n, sym own)
      | no other ↦
          let (i, in_l, is_i) =
            waiting.members m y
              (sym (E.redis.zadd_other queue_key (str n.id) m x s other) ∙ at_m) in
          (i, has-snoc_old i l n in_l, is_i)
    ];
    present = λ i in_all. elim (Bool-cases (has i (ids l))) [
      | inl in_l ↦ zadd-Waits E adding (str n.id) (str i) x s (waiting.present i in_l)
      | inr out ↦
          subst
            (λ k.
              (y : ℕ) × (E.redis.score (E.redis.zadd_nx queue_key (str n.id) x s).1 queue_key
                  (str k)
                ≡ some y))
            (sym (has-snoc_new i l n in_all out)) (zadd-own E adding (str n.id) x s _ refl)
    ];
  }

pub length-ids : (l : List Notification) → length (ids l) ≡ length l
length-ids [] = refl
length-ids (n ∷ l) = ap suc (length-ids l)
