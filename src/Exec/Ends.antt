-- ===== src/Exec/Ends.antt =====
-- What holds at the end of a run from one state: a postcondition over the result and the last state,
-- with one rule for each way to build an action. A rule hands the rest of the run its equation.
use high_throughput_notifica.Prelude.{◌≡◌, refl, Bool, true, false, if◌then◌else◌}
use high_throughput_notifica.Exec.Keeps.{Keeps}
use high_throughput_notifica.Exec.{
  Exception, Result, ok, err, Exec, pure, raise, lift, continue, recover, ◌>>=◌, try_except,
  try_finally, after_close,
}

pub record Ends {ℓ κ} {S A : Type ℓ} (Q : Result A → S → Type κ) (m : Exec S A) (s : S)
    : Type κ where
  pub at : Q (m s).0 (m s).1

module _ {ℓ κ} {S A B : Type ℓ} {Q : Result B → S → Type κ} where
  continue-Ends :
      (r : Result A) (f : A → Exec S B) (s : S)
      → ((e : Exception) → r ≡ err e → Q (err e) s)
      → ((a : A) → r ≡ ok a → Ends Q (f a) s)
      → Q (continue r f s).0 (continue r f s).1
  continue-Ends (ok a) f s he ha = (ha a refl).at
  continue-Ends (err e) f s he ha = he e refl

  pub bind-Ends :
      (m : Exec S A) (f : A → Exec S B) (s : S)
      → ((e : Exception) → (m s).0 ≡ err e → Q (err e) (m s).1)
      → ((a : A) → (m s).0 ≡ ok a → Ends Q (f a) (m s).1)
      → Ends Q (m >>= f) s
  unfolding ◌>>=◌
  bind-Ends m f s he ha = record { at = continue-Ends (m s).0 f (m s).1 he ha }

  -- The same from a postcondition of the first part, which stays shut.
  pub seq-Ends {μ} :
      {P : Result A → S → Type μ} (m : Exec S A) (f : A → Exec S B) (s : S)
      → Ends P m s
      → ((e : Exception) (t : S) → P (err e) t → Q (err e) t)
      → ((a : A) (t : S) → P (ok a) t → Ends Q (f a) t)
      → Ends Q (m >>= f) s
  unfolding ◌>>=◌
  seq-Ends {P} m f s first he ha = record { at = go (m s).0 (m s).1 first.at }
    where
      go : (r : Result A) (t : S) → P r t → Q (continue r f t).0 (continue r f t).1
      go (ok a) t p = (ha a t p).at
      go (err e) t p = he e t p

  -- `lift` changes no state.
  pub lift-Ends :
      (r : Result A) (f : A → Exec S B) (s : S)
      → ((e : Exception) → r ≡ err e → Q (err e) s)
      → ((a : A) → r ≡ ok a → Ends Q (f a) s)
      → Ends Q (lift r >>= f) s
  unfolding ◌>>=◌
  lift-Ends r f s he ha = record { at = continue-Ends r f s he ha }

module _ {ℓ κ} {S A : Type ℓ} {Q : Result A → S → Type κ} where
  pub pure-Ends : (a : A) (s : S) → Q (ok a) s → Ends Q (pure a) s
  unfolding pure
  pure-Ends a s q = record { at = q }

  pub raise-Ends : (e : Exception) (s : S) → Q (err e) s → Ends Q (raise e) s
  unfolding raise
  raise-Ends e s q = record { at = q }

  pub if-Ends :
      (b : Bool) (m n : Exec S A) (s : S)
      → (b ≡ true → Ends Q m s)
      → (b ≡ false → Ends Q n s)
      → Ends Q (if b then m else n) s
  if-Ends true m n s hm hn = hm refl
  if-Ends false m n s hm hn = hn refl

  -- `try: m` / `except Exception: h`, from a postcondition of the body.
  pub try-Ends {μ} :
      {P : Result A → S → Type μ} (m : Exec S A) (h : Exception → Exec S A) (s : S)
      → Ends P m s
      → ((a : A) (t : S) → P (ok a) t → Q (ok a) t)
      → ((e : Exception) (t : S) → P (err e) t → Ends Q (h e) t)
      → Ends Q (try_except m h) s
  unfolding try_except pure
  try-Ends {P} m h s body ha he = record { at = go (m s).0 (m s).1 body.at }
    where
      go : (r : Result A) (t : S) → P r t → Q (recover r pure h t).0 (recover r pure h t).1
      go (ok a) t p = ha a t p
      go (err e) t p = (he e t p).at

  pub weaken-Ends {μ} :
      {P : Result A → S → Type μ} (m : Exec S A) (s : S)
      → Ends P m s
      → ((r : Result A) (t : S) → P r t → Q r t)
      → Ends Q m s
  weaken-Ends m s body h = record { at = h (m s).0 (m s).1 body.at }

-- An invariant of an action, as a postcondition.
pub Keeps-Ends {ℓ} :
    {S A : Type ℓ} {P : S → Type ℓ} (m : Exec S A) (s : S) → Keeps P m → P s → Ends (λ _ t. P t) m s
Keeps-Ends m s k p = record { at = k.at s p }

-- Two postconditions at once.
pub both-Ends {ℓ κ μ} :
    {S A : Type ℓ} {P : Result A → S → Type κ} {Q : Result A → S → Type μ} (m : Exec S A) (s : S)
    → Ends P m s
    → Ends Q m s
    → Ends (λ r t. P r t × Q r t) m s
both-Ends m s p q = record { at = (p.at, q.at) }

-- `try: m` / `except Exception: return a` always returns.
pub try_pure-returns {ℓ} :
    {S A : Type ℓ} (m : Exec S A) (a : A) (s : S)
    → Ends (λ r _. (b : A) × (r ≡ ok b)) (try_except m (λ _. pure a)) s
unfolding try_except pure
try_pure-returns {S} {A} m a s = record { at = go (m s).0 (m s).1 }
  where
    go : (r : Result A) (t : S) → (b : A) × ((recover r pure (λ _. pure a) t).0 ≡ ok b)
    go (ok b) t = (b, refl)
    go (err e) t = (a, refl)

-- `async with`, when it returns: its body returned, and then its end did.
pub finally-Ends {ℓ κ} :
    {S A : Type ℓ} {P Q : A → S → Type κ} (m : Exec S A) (close : Exec S (Unit {ℓ})) (s : S)
    → Ends (λ r t. (a : A) → r ≡ ok a → P a t) m s
    → ((a : A) (t : S) → P a t → Ends (λ c u. c ≡ ok tt → Q a u) close t)
    → Ends (λ r u. (a : A) → r ≡ ok a → Q a u) (try_finally m close) s
unfolding try_finally
finally-Ends {S} {A} {P} {Q} m close s body end = record { at = go (m s).0 (m s).1 body.at }
  where
    closed :
        (r : Result A) (c : Result (Unit {ℓ})) (u : S)
        → ((a : A) → r ≡ ok a → c ≡ ok tt → Q a u)
        → (a : A) → (after_close r c u).0 ≡ ok a
        → Q a (after_close r c u).1
    closed r (ok _) u h a e = h a e refl
    closed r (err x) u h a e = absurd (raised e)
      where
        raised : ¬ (◌≡◌ {A = Result A} (err x) (ok a))
        raised p = cc

    go :
        (r : Result A) (t : S)
        → ((a : A) → r ≡ ok a → P a t)
        → (a : A) → (after_close r (close t).0 (close t).1).0 ≡ ok a
        → Q a (after_close r (close t).0 (close t).1).1
    go r t h = closed r (close t).0 (close t).1 (λ a e c. (end a t (h a e)).at c)
