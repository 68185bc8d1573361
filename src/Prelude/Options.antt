-- ===== src/Prelude/Options.antt =====
-- Constructors that differ or agree.
use mathlib.Core.Path.{◌≡◌}
use mathlib.Core.Bool.{Bool, true, false}
use mathlib.Core.Option.{none, some}

pub some_eq {ℓ} : {A : Type ℓ} {a b : A} → some a ≡ some b → a ≡ b
some_eq p = cc

pub some≢none {ℓ} : {A : Type ℓ} {a : A} → ¬ (some a ≡ none)
some≢none p = cc

pub none≢some {ℓ} : {A : Type ℓ} {a : A} → ¬ (none ≡ some a)
none≢some p = cc

pub false≢true : ¬ (false ≡ true)
false≢true p = cc

pub clash : {b : Bool} → b ≡ true → b ≡ false → ⊥
clash p q = cc
