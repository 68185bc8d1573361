-- ===== src/Samples/Pops.antt =====
-- The Redis of the samples answers every BZPOPMIN; and a queue of one entry.
use high_throughput_notifica.Prelude.{
  ℕ, ◌≡◌, refl, sym, true, false, Option, none, some, List, [], ◌∷◌, ◌==◌, ==_iff, Bool-cases,
  clash, inl, inr,
}
use high_throughput_notifica.Exec.{ok}
use high_throughput_notifica.Decimal.{Bytes, str}
use high_throughput_notifica.Worker.Members.{has}
use high_throughput_notifica.Worker.Waiting.{Popping, Waiting}
use high_throughput_notifica.Samples.Store.{
  Keys, store, score_in, least, take_entry, single-score, single-present,
}
use high_throughput_notifica.Samples.World.{services, waiting}
use high_throughput_notifica.Model.Row.{Notification}

take_entry-total :
    (o : Option (Bytes × ℕ)) (s : Keys) → (p : Option (Bytes × ℕ)) × ((take_entry o s).0 ≡ ok p)
unfolding take_entry
take_entry-total none s = (none, refl)
take_entry-total (some (m, x)) s = (some (m, x), refl)

take_entry-nothing :
    (o : Option (Bytes × ℕ)) (s : Keys) (m : Bytes)
    → (take_entry o s).0 ≡ ok none
    → score_in (take_entry o s).1.entries m ≡ score_in s.entries m
unfolding take_entry
take_entry-nothing none s m e = refl
take_entry-nothing (some (k, x)) s m e = cc

pub services-Popping : Popping (services false true)
unfolding store
services-Popping = record {
  total = λ q s. take_entry-total (least s.entries) s;
  nothing = λ q s m e. take_entry-nothing (least s.entries) s m e;
}

pub waiting-Waiting :
    (rows : List Notification)
    → Waiting (services false true) (7 ∷ []) (waiting false true rows).redis
unfolding waiting store has
waiting-Waiting rows = record {
  members = λ m x at_m. (7, refl, sym (single-score (str 7) m 1000000000500 x at_m).0);
  present = λ i in_l. elim (Bool-cases (i == 7)) [
    | inl hit ↦ (1000000000500, rw ((==_iff i 7).0 hit) (single-present (str 7) 1000000000500))
    | inr miss ↦ absurd (clash in_l (rw miss refl))
  ];
}
