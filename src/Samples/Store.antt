-- ===== src/Samples/Store.antt =====
-- A Redis that is two lists: the keys that are set, and the entries of the sorted set. An entry counts
-- with the lowest score that its member has.
use mathlib.Core.Logic.{ite}
use native.Mathlib.Decide.{ℕ_discrete}
use high_throughput_notifica.Prelude.{
  ℕ, ◌+◌, ◌≤◌, ◌≡◌, ◌≢◌, refl, ap, String, Bool, true, false, not, ◌||◌, Option, none, some, List,
  [], ◌∷◌, leb, min, str_eq, eq_iff, Option-cases, inl, inr, if◌then◌else◌, arith,
}
use high_throughput_notifica.Exec.{Exec, Result, ok}
use high_throughput_notifica.Decimal.{Bytes}
use high_throughput_notifica.Services.{Redis}

pub record Keys : Type 0 where
  pub keys : List String
  pub entries : List (Bytes × ℕ)
  pub expiries : List (String × ℕ)

Bytes-discrete : Discrete Bytes
Bytes-discrete = hlevel ℕ_discrete

pub has_key : List String → String → Bool
has_key [] k = false
has_key (j ∷ rest) k = str_eq j k || has_key rest k

expiry_in : List (String × ℕ) → String → Option ℕ
expiry_in [] k = none
expiry_in ((j, t) ∷ rest) k = if str_eq j k then some t else expiry_in rest k

lowest : ℕ → Option ℕ → ℕ
lowest x none = x
lowest x (some y) = min x y

pub score_in : List (Bytes × ℕ) → Bytes → Option ℕ
unfolding lowest
score_in [] m = none
score_in ((k, x) ∷ rest) m =
    ite (Bytes-discrete k m) (some (lowest x (score_in rest m))) (score_in rest m)

better : Bytes × ℕ → Option (Bytes × ℕ) → Bytes × ℕ
better (k, x) none = (k, x)
better (k, x) (some (j, y)) = if leb x y then (k, x) else (j, y)

pub least : List (Bytes × ℕ) → Option (Bytes × ℕ)
unfolding better
least [] = none
least (e ∷ rest) = some (better e (least rest))

pub without : Bytes → List (Bytes × ℕ) → List (Bytes × ℕ)
without m [] = []
without m ((k, x) ∷ rest) = ite (Bytes-discrete k m) (without m rest) ((k, x) ∷ without m rest)

score_in-without : (m : Bytes) (l : List (Bytes × ℕ)) → score_in (without m l) m ≡ none
unfolding score_in without
score_in-without m [] = refl
score_in-without m ((k, x) ∷ rest) = ground (arith, score_in-without m rest)

score_in-without_ne :
    (m k : Bytes) (l : List (Bytes × ℕ)) → m ≢ k → score_in (without m l) k ≡ score_in l k
unfolding score_in without
score_in-without_ne m k [] ne = refl
score_in-without_ne m k ((j, x) ∷ rest) ne = ground (arith, score_in-without_ne m k rest)

least-none : (l : List (Bytes × ℕ)) (k : Bytes) → least l ≡ none → score_in l k ≡ none
unfolding least score_in
least-none [] k e = refl
least-none ((j, z) ∷ rest) k e = cc

least-le :
    (l : List (Bytes × ℕ)) (m k : Bytes) (x y : ℕ)
    → least l ≡ some (m, x)
    → score_in l k ≡ some y
    → x ≤ y
unfolding least score_in
least-le [] m k x y e s = cc
least-le ((j, z) ∷ rest) m k x y e s = elim (Option-cases (least rest)) [
  | inl a ↦ ground (arith, a, least-none rest k a)
  | inr ((p, v), a) ↦ elim (Option-cases (score_in rest k)) [
    | inl b ↦ ground (arith, a, b)
    | inr (u, b) ↦ ground (arith, a, b, least-le rest p k v u a b)
  ]
]

score_in-least :
    (l : List (Bytes × ℕ)) (m : Bytes) (x : ℕ) → least l ≡ some (m, x) → score_in l m ≡ some x
unfolding least score_in
score_in-least [] m x e = cc
score_in-least ((j, z) ∷ rest) m x e = elim (Option-cases (least rest)) [
  | inl a ↦ ground (arith, a, least-none rest j a)
  | inr ((p, v), a) ↦ elim (Option-cases (score_in rest j)) [
    | inl b ↦ ground (arith, a, b, score_in-least rest p v a)
    | inr (u, b) ↦ ground (arith, a, b, score_in-least rest p v a, least-le rest p j v u a b)
  ]
]

pub set_key : String → Exec Keys Bool
unfolding has_key
set_key k s = if has_key s.keys k then (ok false, s) else (ok true, record s { keys = k ∷ s.keys })

pub add_entry : Bytes → ℕ → Option ℕ → Exec Keys Unit
add_entry m x none s = (ok tt, record s { entries = (m, x) ∷ s.entries })
add_entry m x (some y) s = (ok tt, s)

unfoldable pub take_entry : Option (Bytes × ℕ) → Exec Keys (Option (Bytes × ℕ))
take_entry none s = (ok none, s)
take_entry (some (m, x)) s = (ok (some (m, x)), record s { entries = without m s.entries })

pub size : List (Bytes × ℕ) → ℕ
size [] = 0
size (e ∷ rest) = size rest + 1

module _ (k v : String) (s : Keys) (b : Bool) where
  pub setnx_lem : (set_key k s).0 ≡ ok b → b ≡ not (has_key s.keys k)
  unfolding set_key
  setnx_lem h = ground arith

  pub setnx_has_lem :
      (j : String)
      → (set_key k s).0 ≡ ok b
      → has_key (set_key k s).1.keys j ≡ (if str_eq k j then true else has_key s.keys j)
  unfolding set_key
  setnx_has_lem j h = ground (arith, eq_iff k j)

pub setnx_entries : (k : String) (s : Keys) → (set_key k s).1.entries ≡ s.entries
unfolding set_key
setnx_entries k s = ground arith

module _ (m : Bytes) (x : ℕ) (s : Keys) where
  abbrev pub added : Result (Unit {0}) × Keys
  added = add_entry m x (score_in s.entries m) s

  pub zadd_old_lem : (y : ℕ) → score_in s.entries m ≡ some y → score_in added.1.entries m ≡ some y
  unfolding add_entry
  zadd_old_lem y h = ground arith

  pub zadd_new_lem :
      added.0 ≡ ok tt → score_in s.entries m ≡ none → score_in added.1.entries m ≡ some x
  unfolding add_entry score_in
  zadd_new_lem h e = ground arith

  pub zadd_other_lem : (k : Bytes) → m ≢ k → score_in added.1.entries k ≡ score_in s.entries k
  unfolding add_entry score_in
  zadd_other_lem k ne = ground arith

  pub zadd_keys : added.1.keys ≡ s.keys
  unfolding add_entry
  zadd_keys = ground arith

pub zadd_expiries : (m : Bytes) (x : ℕ) (s : Keys) → (added m x s).1.expiries ≡ s.expiries
unfolding add_entry
zadd_expiries m x s = ground arith

module _ (s : Keys) (m : Bytes) (x : ℕ) where
  abbrev pub taken : Result (Option (Bytes × ℕ)) × Keys
  taken = take_entry (least s.entries) s

  taken-least : taken.0 ≡ ok (some (m, x)) → least s.entries ≡ some (m, x)
  unfolding take_entry
  taken-least h = ground arith

  pub pop_score_lem : taken.0 ≡ ok (some (m, x)) → score_in s.entries m ≡ some x
  pop_score_lem h = score_in-least s.entries m x (taken-least h)

  pub pop_least_lem :
      (k : Bytes) (y : ℕ) → taken.0 ≡ ok (some (m, x)) → score_in s.entries k ≡ some y → x ≤ y
  pop_least_lem k y h e = least-le s.entries m k x y (taken-least h) e

  pub pop_removed_lem : taken.0 ≡ ok (some (m, x)) → score_in taken.1.entries m ≡ none
  pop_removed_lem h = rw (taken-least h) (unfold take_entry in score_in-without m s.entries)

  pub pop_other_lem :
      (k : Bytes)
      → taken.0 ≡ ok (some (m, x))
      → m ≢ k
      → score_in taken.1.entries k ≡ score_in s.entries k
  pop_other_lem k h ne =
      rw (taken-least h) (unfold take_entry in score_in-without_ne m k s.entries ne)

pub pop_empty_lem :
    (s : Keys) (k : Bytes)
    → (take_entry (least s.entries) s).0 ≡ ok none
    → score_in s.entries k ≡ none
unfolding take_entry
pop_empty_lem s k h = elim (Option-cases (least s.entries)) [
  | inl e ↦ least-none s.entries k e
  | inr (p, e) ↦ ground (arith, e)
]

unfoldable pub store : Redis
unfolding set_key add_entry take_entry score_in has_key least size without expiry_in Bytes-discrete
store = record {
  State = Keys;
  has = λ s k. has_key s.keys k;
  score = λ s q m. score_in s.entries m;
  setnx = λ k v. set_key k;
  expiry = λ s k. expiry_in s.expiries k;
  expire = λ k t s. (ok tt, record s { expiries = (k, t) ∷ s.expiries });
  zadd_nx = λ q m x s. add_entry m x (score_in s.entries m) s;
  bzpopmin = λ q s. take_entry (least s.entries) s;
  zcard = λ q s. (ok (size s.entries), s);
  zrem = λ q m s. (ok tt, record s { entries = without m s.entries });
  setnx_ok = λ k v s b h. setnx_lem k v s b h;
  setnx_has = λ k v s b j h. setnx_has_lem k v s b j h;
  setnx_score = λ k v s q m. ap (λ l. score_in l m) (setnx_entries k s);
  expire_has = λ k t s j h. refl;
  expire_score = λ k t s q m. refl;
  expire_set = λ k t s h there. rw ((eq_iff k k).1 refl) refl;
  zadd_expiry = λ q m x s j. ap (λ l. expiry_in l j) (zadd_expiries m x s);
  zadd_old = λ q m x y s h. zadd_old_lem m x s y h;
  zadd_new = λ q m x s h e. zadd_new_lem m x s h e;
  zadd_other = λ q m k x s ne. zadd_other_lem m x s k ne;
  zadd_has = λ q m x s j. ap (λ l. has_key l j) (zadd_keys m x s);
  pop_score = λ q s m x h. pop_score_lem s m x h;
  pop_least = λ q s m k x y h e. pop_least_lem s m x k y h e;
  pop_removed = λ q s m x h. pop_removed_lem s m x h;
  pop_other = λ q s m k x h ne. pop_other_lem s m x k h ne;
  pop_empty = λ q s k h. pop_empty_lem s k h;
}

-- What a sorted set of one entry holds.
pub single-score : (k m : Bytes) (x y : ℕ) → score_in ((k, x) ∷ []) m ≡ some y → (k ≡ m) × (x ≡ y)
unfolding score_in lowest Bytes-discrete
single-score k m x y h = ground arith

pub single-present : (k : Bytes) (x : ℕ) → score_in ((k, x) ∷ []) k ≡ some x
unfolding score_in lowest Bytes-discrete
single-present k x = ground arith

add_entry_ok : (m : Bytes) (x : ℕ) (o : Option ℕ) (s : Keys) → (add_entry m x o s).0 ≡ ok tt
unfolding add_entry
add_entry_ok m x none s = refl
add_entry_ok m x (some y) s = refl

-- It answers every ZADD.
pub store_adds :
    (q : String) (m : Bytes) (x : ℕ) (s : store.State) → (store.zadd_nx q m x s).0 ≡ ok tt
unfolding store
store_adds q m x s = add_entry_ok m x _ s
