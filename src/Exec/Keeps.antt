-- ===== src/Exec/Keeps.antt =====
-- What survives a run: a property of the state that an action hands on, on both ways out. There is a
-- rule for each statement, and a ruleset that puts them together.
use high_throughput_notifica.Prelude.{◌≡◌, refl, Bool, true, false, if◌then◌else◌}
use high_throughput_notifica.Exec.{
  Exception, Result, ok, err, Exec, pure, raise, lift, gets, continue, recover, ◌>>=◌, try_except,
  try_finally, after_close,
}

-- The invariant `I` outlives the run.
pub record Keeps {ℓ} {S A : Type ℓ} (I : S → Type ℓ) (act : Exec S A) : Type ℓ where
  pub at : (before : S) → I before → I (act before).1

module _ {ℓ} {S A B : Type ℓ} {I : S → Type ℓ} where
  pub Keeps-bind :
      (act : Exec S A) (rest : A → Exec S B)
      → Keeps I act
      → ((v : A) → Keeps I (rest v))
      → Keeps I (act >>= rest)
  unfolding ◌>>=◌
  Keeps-bind act rest first then_ = record {
    at = λ before i. onward (act before).0 (act before).1 (first.at before i);
  }
    where
      onward : (r : Result A) (mid : S) → I mid → I (continue r rest mid).1
      onward (err e) mid i = i
      onward (ok v) mid i = (then_ v).at mid i

  -- The rest runs on the value that the computation gives.
  pub Keeps-lift_bind :
      (r : Result A) (rest : A → Exec S B)
      → ((v : A) → r ≡ ok v → Keeps I (rest v))
      → Keeps I (lift r >>= rest)
  unfolding ◌>>=◌ lift
  Keeps-lift_bind (err e) rest h = record { at = λ before i. i }
  Keeps-lift_bind (ok v) rest h = record { at = λ before i. (h v refl).at before i }

module _ {ℓ} {S A : Type ℓ} {I : S → Type ℓ} where
  pub Keeps-try :
      (body : Exec S A) (handler : Exception → Exec S A)
      → Keeps I body
      → ((e : Exception) → Keeps I (handler e))
      → Keeps I (try_except body handler)
  unfolding try_except pure
  Keeps-try body handler first second = record {
    at = λ before i. onward (body before).0 (body before).1 (first.at before i);
  }
    where
      onward : (r : Result A) (mid : S) → I mid → I (recover r pure handler mid).1
      onward (err e) mid i = (second e).at mid i
      onward (ok v) mid i = i

  pub Keeps-finally :
      (body : Exec S A) (close : Exec S (Unit {ℓ}))
      → Keeps I body
      → Keeps I close
      → Keeps I (try_finally body close)
  unfolding try_finally
  Keeps-finally body close first second = record {
    at = λ before i.
        let mid = (body before).1 in
        closed (body before).0 (close mid).0 (close mid).1 (second.at mid (first.at before i));
  }
    where
      closed : (r : Result A) (c : Result (Unit {ℓ})) (end : S) → I end → I (after_close r c end).1
      closed r (err e) end i = i
      closed r (ok _) end i = i

  pub Keeps-if :
      (b : Bool) (then_branch else_branch : Exec S A)
      → (b ≡ true → Keeps I then_branch)
      → (b ≡ false → Keeps I else_branch)
      → Keeps I (if b then then_branch else else_branch)
  Keeps-if false then_branch else_branch on_yes on_no = on_no refl
  Keeps-if true then_branch else_branch on_yes on_no = on_yes refl

  -- An action that leaves the state as it is keeps anything.
  still : (act : Exec S A) → ((s : S) → s ≡ (act s).1) → Keeps I act
  still act same = record { at = λ before i. cast (same before) i }
    where
      cast : {s t : S} → s ≡ t → I s → I t
      cast e i = rw (← e) i

  pub Keeps-gets : (f : S → A) → Keeps I (gets f)
  unfolding gets
  Keeps-gets f = still _ λ s. refl

  pub Keeps-lift : (r : Result A) → Keeps I (lift r)
  unfolding lift
  Keeps-lift r = still _ λ s. refl

  pub Keeps-raise : (e : Exception) → Keeps I (raise {A = A} e)
  unfolding raise
  Keeps-raise e = still _ λ s. refl

  pub Keeps-pure : (v : A) → Keeps I (pure v)
  unfolding pure
  Keeps-pure v = still _ λ s. refl

pub ruleset keeps_rules = (
  Keeps-bind, Keeps-try, Keeps-finally, Keeps-if, Keeps-gets, Keeps-lift, Keeps-raise, Keeps-pure,
)
