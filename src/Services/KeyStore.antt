-- ===== src/Services/KeyStore.antt =====
-- The commands of Redis that the program uses: string keys, and one sorted set of queued members.
use high_throughput_notifica.Prelude.{
  ℕ, ◌<◌, ◌≤◌, String, ◌≡◌, ◌≢◌, Bool, true, not, Option, none, some, str_eq, if◌then◌else◌,
}
use high_throughput_notifica.Exec.{Exec, ok}
use high_throughput_notifica.Decimal.{Bytes}

pub record Redis : Type 1 where
  pub State : Type 0
  -- is the string key set; the score of a member of a sorted set
  pub has : State → String → Bool
  pub score : State → String → Bytes → Option ℕ
  -- the seconds that the last EXPIRE of a key gave it
  pub expiry : State → String → Option ℕ
  pub setnx : String → String → Exec State Bool
  pub expire : String → ℕ → Exec State Unit
  -- ZADD with NX; BZPOPMIN with a timeout of one second, without the name of the key; ZCARD; ZREM
  pub zadd_nx : String → Bytes → ℕ → Exec State Unit
  pub bzpopmin : String → Exec State (Option (Bytes × ℕ))
  pub zcard : String → Exec State ℕ
  pub zrem : String → Bytes → Exec State Unit
  pub setnx_ok : (k v : String) (s : State) (b : Bool) → (setnx k v s).0 ≡ ok b → b ≡ not (has s k)
  pub setnx_has :
      (k v : String) (s : State) (b : Bool) (j : String)
      → (setnx k v s).0 ≡ ok b
      → has (setnx k v s).1 j ≡ (if str_eq k j then true else has s j)
  pub setnx_score :
      (k v : String) (s : State) (q : String) (m : Bytes) → score (setnx k v s).1 q m ≡ score s q m
  pub expire_has :
      (k : String) (t : ℕ) (s : State) (j : String) → 0 < t → has (expire k t s).1 j ≡ has s j
  pub expire_score :
      (k : String) (t : ℕ) (s : State) (q : String) (m : Bytes)
      → score (expire k t s).1 q m ≡ score s q m
  pub expire_set :
      (k : String) (t : ℕ) (s : State)
      → (expire k t s).0 ≡ ok tt
      → has s k ≡ true
      → expiry (expire k t s).1 k ≡ some t
  pub zadd_expiry :
      (q : String) (m : Bytes) (x : ℕ) (s : State) (j : String)
      → expiry (zadd_nx q m x s).1 j ≡ expiry s j
  -- NX: a member that is there keeps its score
  pub zadd_old :
      (q : String) (m : Bytes) (x y : ℕ) (s : State)
      → score s q m ≡ some y
      → score (zadd_nx q m x s).1 q m ≡ some y
  pub zadd_new :
      (q : String) (m : Bytes) (x : ℕ) (s : State)
      → (zadd_nx q m x s).0 ≡ ok tt
      → score s q m ≡ none
      → score (zadd_nx q m x s).1 q m ≡ some x
  pub zadd_other :
      (q : String) (m k : Bytes) (x : ℕ) (s : State)
      → m ≢ k
      → score (zadd_nx q m x s).1 q k ≡ score s q k
  pub zadd_has :
      (q : String) (m : Bytes) (x : ℕ) (s : State) (j : String)
      → has (zadd_nx q m x s).1 j ≡ has s j
  -- the member with the lowest score is removed and returned; nothing comes from an empty set only
  pub pop_score :
      (q : String) (s : State) (m : Bytes) (x : ℕ)
      → (bzpopmin q s).0 ≡ ok (some (m, x))
      → score s q m ≡ some x
  pub pop_least :
      (q : String) (s : State) (m k : Bytes) (x y : ℕ)
      → (bzpopmin q s).0 ≡ ok (some (m, x))
      → score s q k ≡ some y
      → x ≤ y
  pub pop_removed :
      (q : String) (s : State) (m : Bytes) (x : ℕ)
      → (bzpopmin q s).0 ≡ ok (some (m, x))
      → score (bzpopmin q s).1 q m ≡ none
  pub pop_other :
      (q : String) (s : State) (m k : Bytes) (x : ℕ)
      → (bzpopmin q s).0 ≡ ok (some (m, x))
      → m ≢ k
      → score (bzpopmin q s).1 q k ≡ score s q k
  pub pop_empty :
      (q : String) (s : State) (k : Bytes) → (bzpopmin q s).0 ≡ ok none → score s q k ≡ none
