-- ===== src/Exec.antt =====
-- Statements that change state and may raise an exception: what the coroutines of app/ do between
-- two `await`s and across them. What was written before an exception stays written.
pub mod Keeps
pub mod Ends
pub mod Results
use high_throughput_notifica.Prelude.{ℕ, ◌≡◌, refl, ◌⊎◌, inl, inr}

-- The exceptions that the program raises, catches or passes on. `other` stands for any class that
-- no handler of the program names: lost connections, closed channels, driver errors.
pub data Exception : Type 0 where
  key_error value_error attribute_error type_error integrity_error : Exception
  json_decode_error timeout_error connection_error : Exception
  other : ℕ → Exception

pub data Result {ℓ} (A : Type ℓ) : Type ℓ where
  ok : A → Result A
  err : Exception → Result A

pub Result-cases {ℓ} :
    {A : Type ℓ} (r : Result A) → ((a : A) × (r ≡ ok a)) ⊎ ((e : Exception) × (r ≡ err e))
Result-cases (ok a) = inl (a, refl)
Result-cases (err e) = inr (e, refl)

abbrev pub Exec {ℓ} : Type ℓ → Type ℓ → Type ℓ
Exec S A = S → Result A × S

module _ {ℓ} {S A : Type ℓ} where
  -- a look at the state, a computation that may fail, `raise` and `return`
  unfoldable pub gets : (S → A) → Exec S A
  gets look now = (ok (look now), now)

  unfoldable pub lift : Result A → Exec S A
  lift result now = (result, now)

  unfoldable pub raise : Exception → Exec S A
  raise e now = (err e, now)

  unfoldable pub pure : A → Exec S A
  pure v now = (ok v, now)

module _ {ℓ} {S A B : Type ℓ} where
  abbrev pub recover : Result A → (A → Exec S B) → (Exception → Exec S B) → Exec S B
  recover (err e) rest handler now = handler e now
  recover (ok v) rest handler now = rest v now

  -- After an exception nothing more of a block runs.
  abbrev pub continue : Result A → (A → Exec S B) → Exec S B
  continue (err e) rest now = (err e, now)
  continue (ok v) rest now = rest v now

  unfoldable pub ◌>>=◌ : Exec S A → (A → Exec S B) → Exec S B
  unfolding gets lift raise pure
  ◌>>=◌ first rest now = continue (first now).0 rest (first now).1

  abbrev pub ◌>>◌ : Exec S A → Exec S B → Exec S B
  first >> second = first >>= λ _. second

  infixl 10 ◌>>=◌ ◌>>◌

module _ {ℓ} {S A : Type ℓ} where
  -- `try: m` / `except Exception as e: h`
  unfoldable pub try_except : Exec S A → (Exception → Exec S A) → Exec S A
  unfolding pure
  try_except m h s = let (r, s') = m s in recover r pure h s'

  abbrev pub after_close : Result A → Result (Unit {ℓ}) → Exec S A
  after_close r (ok _) s = (r, s)
  after_close r (err e) s = (err e, s)

  -- `async with` a resource: `close` runs on both ways out, and its own exception goes first.
  unfoldable pub try_finally : Exec S A → Exec S (Unit {ℓ}) → Exec S A
  try_finally m close s = let (r, s') = m s in let (c, s'') = close s' in after_close r c s''
