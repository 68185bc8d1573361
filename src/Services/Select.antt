-- ===== src/Services/Select.antt =====
-- SELECT on the table with conditions, newest rows first, for one page.
use mathlib.Core.List.{Mem}
use high_throughput_notifica.Prelude.{
  ℕ, ◌≤◌, ◌≡◌, ◌≢◌, String, Bool, true, ◌&&◌, Option, none, some, List, [], ◌∷◌, All, take, drop,
  ◌==◌,
}
use high_throughput_notifica.Exec.{Exec, ok}
use high_throughput_notifica.Model.Row.{Notification}
use high_throughput_notifica.Services.Sql.{Database}

pub data Condition : Type 0 where
  status_is channel_is source_is event_is : ℕ → Condition

-- The statement: its conditions, ORDER BY ctime DESC, LIMIT, OFFSET.
pub record Query : Type 0 where
  pub conditions : List Condition
  pub limit : ℕ
  pub offset : ℕ

unfoldable pub meets : Notification → Condition → Bool
meets n (status_is v) = n.status == v
meets n (channel_is v) = n.channel == v
meets n (source_is v) = n.source_service == v
meets n (event_is v) = n.event_type == v

unfoldable pub meets_all : Notification → List Condition → Bool
unfolding meets
meets_all n [] = true
meets_all n (c ∷ rest) = meets n c && meets_all n rest

-- DESC puts a missing time first.
abbrev pub NotNewer : Option ℕ → Option ℕ → Type 0
NotNewer none m = Unit
NotNewer (some t) none = ⊥
NotNewer (some t) (some u) = u ≤ t

abbrev pub NewestFirst : List Notification → Type 0
NewestFirst [] = Unit
NewestFirst (n ∷ l) = All (λ (m : Notification). NotNewer n.ctime m.ctime) l × NewestFirst l

abbrev pub Distinct : List Notification → Type 0
Distinct [] = Unit
Distinct (n ∷ l) = All (λ (m : Notification). n.id ≢ m.id) l × Distinct l

module _ (D : Database) where
  -- All the rows that meet the conditions, each of them once, newest first.
  pub record Answer (db : D.Db) (conditions : List Condition) (all : List Notification)
      : Type 0 where
    pub sound :
        All (λ (n : Notification). (D.table db n.id ≡ some n) × (meets_all n conditions ≡ true)) all
    pub complete :
        (i : ℕ) (n : Notification)
        → D.table db i ≡ some n
        → meets_all n conditions ≡ true
        → Mem n all
    pub distinct : Distinct all
    pub newest_first : NewestFirst all

  pub record Listing : Type 0 where
    pub query : Query → Exec D.Db (List Notification)
    -- the row of a key, by its unique index
    pub find_key : String → Exec D.Db (Option Notification)
    pub query_ok :
        (q : Query) (db : D.Db) (page : List Notification)
        → (query q db).0 ≡ ok page
        → (all : List Notification) × Answer db q.conditions all
          × (page ≡ take q.limit (drop q.offset all))
    pub query_keeps : (q : Query) (j : ℕ) (db : D.Db) → D.table (query q db).1 j ≡ D.table db j
    pub key_some :
        (key : String) (db : D.Db) (n : Notification)
        → (find_key key db).0 ≡ ok (some n)
        → (D.table db n.id ≡ some n) × (n.idempotency_key ≡ key)
    pub key_none :
        (key : String) (db : D.Db) (i : ℕ) (n : Notification)
        → (find_key key db).0 ≡ ok none
        → D.table db i ≡ some n
        → n.idempotency_key ≢ key
    pub key_keeps :
        (key : String) (j : ℕ) (db : D.Db) → D.table (find_key key db).1 j ≡ D.table db j
