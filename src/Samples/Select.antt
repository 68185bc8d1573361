-- ===== src/Samples/Select.antt =====
-- Queries on the table in memory: they are answered on a table of one row, and raise on any other.
use mathlib.Core.List.{mem-cons_self}
use high_throughput_notifica.Prelude.{
  ℕ, ◌≡◌, ◌≢◌, refl, sym, String, Bool, true, false, Option, none, some, List, [], ◌∷◌, take, drop,
  str_eq, eq_iff, if◌then◌else◌, arith,
}
use high_throughput_notifica.Exec.{Result, ok, err, other}
use high_throughput_notifica.Exec.Results.{ok-injective}
use high_throughput_notifica.Model.Row.{Notification}
use high_throughput_notifica.Services.{Condition, Query, Answer, Listing, meets_all}
use high_throughput_notifica.Samples.Table.{memory, find}

pub kept : List Notification → List Condition → Result (List Notification)
kept (n ∷ []) conditions = ok (if meets_all n conditions then n ∷ [] else [])
kept rows conditions = err (other 5)

pub paged : Query → Result (List Notification) → Result (List Notification)
paged q (ok all) = ok (take q.limit (drop q.offset all))
paged q (err e) = err e

pub keyed : String → List Notification → Result (Option Notification)
keyed key (n ∷ []) = ok (if str_eq n.idempotency_key key then some n else none)
keyed key rows = err (other 5)

unfoldable pub stored : List Notification → ℕ → (memory false).Db
unfolding memory
stored rows clock = record { rows = rows; clock = clock }

module _ (clock : ℕ) (n : Notification) where
  only_lem :
      (i : ℕ) (m : Notification) → (memory false).table (stored (n ∷ []) clock) i ≡ some m → n ≡ m
  unfolding memory find stored
  only_lem i m h = ground arith

  only_self : (memory false).table (stored (n ∷ []) clock) n.id ≡ some n
  unfolding memory find stored
  only_self = ground arith

  one-Answer :
      (conditions : List Condition) (b : Bool)
      → meets_all n conditions ≡ b
      → Answer (memory false) (stored (n ∷ []) clock) conditions (if b then n ∷ [] else [])
  one-Answer conditions true meets = record {
    sound = ((only_self, meets), tt);
    complete = λ i m h _. rw (sym (only_lem i m h)) mem-cons_self;
    distinct = (tt, tt);
    newest_first = (tt, tt);
  }
  one-Answer conditions false meets = record {
    sound = tt;
    complete = λ i m h m_meets. let same = only_lem i m h in absurd cc;
    distinct = tt;
    newest_first = tt;
  }

  key_some_lem :
      (key : String) (m : Notification)
      → keyed key (n ∷ []) ≡ ok (some m)
      → ((memory false).table (stored (n ∷ []) clock) m.id ≡ some m) × (m.idempotency_key ≡ key)
  unfolding keyed memory find stored
  key_some_lem key m h = ground (arith, eq_iff n.idempotency_key key)

  key_none_lem :
      (key : String) (i : ℕ) (m : Notification)
      → keyed key (n ∷ []) ≡ ok none
      → (memory false).table (stored (n ∷ []) clock) i ≡ some m
      → m.idempotency_key ≢ key
  unfolding keyed memory find stored
  key_none_lem key i m h e = λ p. ground (arith, eq_iff n.idempotency_key key)

pub kept-Answer :
    (rows : List Notification) (clock : ℕ) (q : Query) (page : List Notification)
    → paged q (kept rows q.conditions) ≡ ok page
    → (all : List Notification) × Answer (memory false) (stored rows clock) q.conditions all
      × (page ≡ take q.limit (drop q.offset all))
unfolding kept paged
kept-Answer [] clock q page h = cc
kept-Answer (n ∷ []) clock q page h =
    (_, one-Answer clock n q.conditions _ refl, sym (ok-injective h))
kept-Answer (n ∷ m ∷ rest) clock q page h = cc

pub key_some :
    (rows : List Notification) (clock : ℕ) (key : String) (m : Notification)
    → keyed key rows ≡ ok (some m)
    → ((memory false).table (stored rows clock) m.id ≡ some m) × (m.idempotency_key ≡ key)
key_some [] clock key m h = absurd (unfold keyed in cc)
key_some (n ∷ []) clock key m h = key_some_lem clock n key m h
key_some (n ∷ k ∷ rest) clock key m h = absurd (unfold keyed in cc)

pub key_none :
    (rows : List Notification) (clock : ℕ) (key : String) (i : ℕ) (m : Notification)
    → keyed key rows ≡ ok none
    → (memory false).table (stored rows clock) i ≡ some m
    → m.idempotency_key ≢ key
key_none [] clock key i m h e = absurd (unfold keyed in cc)
key_none (n ∷ []) clock key i m h e = key_none_lem clock n key i m h e
key_none (n ∷ k ∷ rest) clock key i m h e = absurd (unfold keyed in cc)

unfoldable pub selecting : Listing (memory false)
unfolding memory kept paged keyed find stored
selecting = record {
  query = λ q db. (paged q (kept db.rows q.conditions), db);
  find_key = λ key db. (keyed key db.rows, db);
  query_ok = λ q db page h. kept-Answer db.rows db.clock q page h;
  query_keeps = λ q j db. refl;
  key_some = λ key db n h. key_some db.rows db.clock key n h;
  key_none = λ key db i n h e. key_none db.rows db.clock key i n h e;
  key_keeps = λ key j db. refl;
}
