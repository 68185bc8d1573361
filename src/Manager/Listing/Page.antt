-- ===== src/Manager/Listing/Page.antt =====
-- What a page of notifications holds.
use mathlib.Core.List.{Mem}
use high_throughput_notifica.Prelude.{
  ℕ, suc, zero, ◌≤◌, ◌<◌, ◌≡◌, refl, Option, some, List, [], ◌∷◌, All, take, drop, length,
  length-take, take-all, All-take, All-drop,
}
use high_throughput_notifica.Exec.{Exception, Result, ok, err}
use high_throughput_notifica.Exec.Ends.{Ends, lift-Ends}
use high_throughput_notifica.Exec.Results.{ok≢err}
use high_throughput_notifica.Model.Row.{Notification}
use high_throughput_notifica.Services.{
  Services, World, Listing, Answer, NewestFirst, Distinct, on_db,
}
use high_throughput_notifica.Repository.Table.{row}
use high_throughput_notifica.Repository.Listing.{conditions_of, list}
use high_throughput_notifica.Manager.Listing.{Filters, list_notifications}
use high_throughput_notifica.Manager.Listing.Filter.{Matches, Resolved, matches, Matches-meets}

-- The page of a listing in the world `w`.
pub record Page (E : Services) (w : World E) (f : Filters) (limit offset : ℕ)
    (page : List Notification) : Type 0 where
  pub sound : All (λ (n : Notification). (row w n.id ≡ some n) × Matches f n) page
  pub bounded : length page ≤ limit
  pub distinct : Distinct page
  pub newest_first : NewestFirst page
  pub complete :
      offset ≡ 0
      → length page < limit
      → (i : ℕ) (n : Notification) → row w i ≡ some n
      → Matches f n
      → Mem n page

NewestFirst-take : (k : ℕ) (l : List Notification) → NewestFirst l → NewestFirst (take k l)
NewestFirst-take zero l h = tt
NewestFirst-take (suc k) [] h = tt
NewestFirst-take (suc k) (n ∷ l) h = (All-take _ k l h.0, NewestFirst-take k l h.1)

NewestFirst-drop : (k : ℕ) (l : List Notification) → NewestFirst l → NewestFirst (drop k l)
NewestFirst-drop zero l h = h
NewestFirst-drop (suc k) [] h = tt
NewestFirst-drop (suc k) (n ∷ l) h = NewestFirst-drop k l h.1

Distinct-take : (k : ℕ) (l : List Notification) → Distinct l → Distinct (take k l)
Distinct-take zero l h = tt
Distinct-take (suc k) [] h = tt
Distinct-take (suc k) (n ∷ l) h = (All-take _ k l h.0, Distinct-take k l h.1)

Distinct-drop : (k : ℕ) (l : List Notification) → Distinct l → Distinct (drop k l)
Distinct-drop zero l h = h
Distinct-drop (suc k) [] h = tt
Distinct-drop (suc k) (n ∷ l) h = Distinct-drop k l h.1

All-map {ℓ κ μ} :
    {A : Type ℓ} (P : A → Type κ) (Q : A → Type μ) (l : List A)
    → ((a : A) → P a → Q a)
    → All P l
    → All Q l
All-map P Q [] f h = tt
All-map P Q (a ∷ l) f h = (f a h.0, All-map P Q l f h.1)

module _ {E : Services} (L : Listing E.database) (f : Filters) (limit offset : ℕ) where
  abbrev AfterList : World E → Result (List Notification) → World E → Type 0
  AfterList w r v =
      ((j : ℕ) → row v j ≡ row w j)
      × ((page : List Notification) → r ≡ ok page → Page E w f limit offset page)

  query-Page :
      (w : World E) (s c o e : Option ℕ) (all page : List Notification)
      → Resolved f s c o e
      → Answer E.database w.db (conditions_of s c o e) all
      → page ≡ take limit (drop offset all)
      → Page E w f limit offset page
  query-Page w s c o e all page known answer cut = rw cut (record {
    sound =
        All-map _ _ _ (λ n h. (h.0, matches f s c o e known n h.1))
          (All-take _ limit (drop offset all) (All-drop _ offset all answer.sound));
    bounded = length-take limit (drop offset all);
    distinct = Distinct-take limit (drop offset all) (Distinct-drop offset all answer.distinct);
    newest_first =
        NewestFirst-take limit (drop offset all) (NewestFirst-drop offset all answer.newest_first);
    complete = λ first short i n here m.
        let whole : take limit (drop offset all) ≡ drop offset all =
          take-all limit (drop offset all) short in
        rw (whole, first) (answer.complete i n here (Matches-meets f s c o e known n m));
  })

  list-Ends :
      (w : World E) (s c o e : Option ℕ)
      → Resolved f s c o e
      → Ends (AfterList w) (list L s c o e limit offset) w
  unfolding list on_db
  list-Ends w s c o e known = record {
    at = (
      λ j. L.query_keeps _ j w.db,
      λ page done.
          let (all, answer, cut) = L.query_ok _ w.db page done in
          query-Page w s c o e all page known answer cut,
    );
  }

  list_notifications-Ends :
      (w : World E) → Ends (AfterList w) (list_notifications L f limit offset) w
  unfolding list_notifications
  list_notifications-Ends w = lift-Ends _ _ w raised λ s is_s. lift-Ends _ _ w raised λ c is_c.
      lift-Ends _ _ w raised λ o is_o. lift-Ends _ _ w raised λ e is_e.
        list-Ends w s c o e
          (record { status_ok = is_s; channel_ok = is_c; source_ok = is_o; event_ok = is_e })
    where
      raised : {r : Result (Option ℕ)} (x : Exception) → r ≡ err x → AfterList w (err x) w
      raised x _ = (λ j. refl, λ page b. absurd (ok≢err b))

-- A listing changes no row. A page that it returns holds stored rows that pass every filter, each of
-- them once, newest first, and at most `limit` of them; and a first page that is not full holds every
-- stored row that passes the filters. A filter names a member of its enumeration in any case.
pub list_notifications-Page :
    (E : Services) (L : Listing E.database) (f : Filters) (limit offset : ℕ) (w : World E)
    → let (r, v) = list_notifications L f limit offset w in
      ((j : ℕ) → row v j ≡ row w j)
      × ((page : List Notification) → r ≡ ok page → Page E w f limit offset page)
list_notifications-Page E L f limit offset w = (list_notifications-Ends L f limit offset w).at
