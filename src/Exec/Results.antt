-- ===== src/Exec/Results.antt =====
-- Results that return and results that raise are different.
use high_throughput_notifica.Prelude.{◌≡◌}
use high_throughput_notifica.Exec.{Exception, Result, ok, err}

pub ok≢err {ℓ} : {A : Type ℓ} {a : A} {e : Exception} → ¬ (◌≡◌ {A = Result A} (err e) (ok a))
ok≢err p = cc

pub returned≢err {ℓ} :
    {A : Type ℓ} {e : Exception} → ¬ ((a : A) × (◌≡◌ {A = Result A} (err e) (ok a)))
returned≢err p = ok≢err p.1

pub ok-injective {ℓ} : {A : Type ℓ} {a b : A} → ◌≡◌ {A = Result A} (ok a) (ok b) → a ≡ b
ok-injective p = cc
