-- ===== src/Manager/Listing/Filter.antt =====
-- The filters of a listing, as the conditions of its statement.
use high_throughput_notifica.Prelude.{
  ℕ, ◌≡◌, refl, sym, ap, ◌∙◌, String, Bool, true, false, ◌&&◌, Option, none, some, List, [], ◌∷◌,
  ◌++◌, Bool-cases, inl, inr, ◌==◌, ==_iff, str_eq, eq_iff,
}
use high_throughput_notifica.Exec.{Result, ok, err}
use high_throughput_notifica.Exec.Results.{ok≢err, ok-injective}
use high_throughput_notifica.Text.{upper}
use high_throughput_notifica.Model.Enums.{status_value, channel_value, source_value, event_value}
use high_throughput_notifica.Model.Names.{
  status_member, channel_member, source_member, event_member,
}
use high_throughput_notifica.Model.Row.{Notification}
use high_throughput_notifica.Services.{
  Condition, status_is, channel_is, source_is, event_is, meets, meets_all,
}
use high_throughput_notifica.Repository.Listing.{where_, conditions_of}
use high_throughput_notifica.Manager.Listing.{Filters, some_value, value_of_filter}

-- A filter lets a value through: there is no filter, or it is the name of the member with that value.
pub data Passes {M : Type 0} (member : String → Result M) (value : M → ℕ) (field : ℕ)
    : Option String → Type 0 where
  absent : Passes member value field none
  blank : Passes member value field (some "")
  named :
      (text : String) (m : M)
      → member (upper text) ≡ ok m
      → field ≡ value m
      → Passes member value field (some text)

pub record Matches (f : Filters) (n : Notification) : Type 0 where
  pub status : Passes status_member status_value n.status f.status
  pub channel : Passes channel_member channel_value n.channel f.channel
  pub source : Passes source_member source_value n.source_service f.source_service
  pub event : Passes event_member event_value n.event_type f.event_type

-- The value that a filter asks for, against the value of a row.
unfoldable pub agrees : Option ℕ → ℕ → Bool
agrees none field = true
agrees (some v) field = field == v

module _ {M : Type 0} (member : String → Result M) (value : M → ℕ) (field : ℕ) where
  agrees-Passes :
      (t : Option String) (o : Option ℕ)
      → value_of_filter member value t ≡ ok o
      → agrees o field ≡ true
      → Passes member value field t
  unfolding value_of_filter agrees
  agrees-Passes none o e h = absent
  agrees-Passes (some t) o e h = elim (Bool-cases (str_eq t "")) [
    | inl empty ↦ rw ((eq_iff t "").0 empty) blank
    | inr full ↦ go (member (upper t)) refl (rw full at e)
  ]
    where
      go :
          (r : Result M)
          → member (upper t) ≡ r
          → some_value value r ≡ ok o
          → Passes member value field (some t)
      go (ok m) is_m e' = named t m is_m ((==_iff field (value m)).0 (rw (← ok-injective e') at h))
      go (err x) is_m e' = absurd (ok≢err e')

  Passes-agrees :
      {t : Option String} (o : Option ℕ)
      → value_of_filter member value t ≡ ok o
      → Passes member value field t
      → agrees o field ≡ true
  unfolding value_of_filter agrees
  Passes-agrees o e absent = rw (← ok-injective e) refl
  Passes-agrees o e blank = rw (← ok-injective e) refl
  Passes-agrees o e (named t m is_m same) = elim (Bool-cases (str_eq t "")) [
    | inl empty ↦ let found = rw empty at e in rw (← ok-injective found) refl
    | inr full ↦
        let found = rw (full, is_m) at e in
        rw (← ok-injective found) ((==_iff field (value m)).1 same)
  ]

-- The conditions of a statement, one by one.
module _ (n : Notification) where
  meets_all-append :
      (a b : List Condition) → meets_all n (a ++ b) ≡ (meets_all n a && meets_all n b)
  unfolding meets_all
  meets_all-append [] b = refl
  meets_all-append (c ∷ a) b = rw (meets_all-append a b) (and_assoc (meets n c) _ _)
    where
      and_assoc : (x y z : Bool) → (x && (y && z)) ≡ ((x && y) && z)
      and_assoc true y z = refl
      and_assoc false y z = refl

  both-true : (x y : Bool) → (x && y) ≡ true → (x ≡ true) × (y ≡ true)
  both-true true y h = (refl, h)
  both-true false y h = cc

  and-true : (x : Bool) → (x && true) ≡ x
  and-true true = refl
  and-true false = refl

  meets-where_ :
      (condition : ℕ → Condition) (field : ℕ) (o : Option ℕ)
      → ((v : ℕ) → meets n (condition v) ≡ (field == v))
      → meets_all n (where_ condition o) ≡ agrees o field
  unfolding meets_all where_ agrees
  meets-where_ condition field none h = refl
  meets-where_ condition field (some v) h = and-true _ ∙ h v

  meets-where_-append :
      (condition : ℕ → Condition) (field : ℕ) (o : Option ℕ) (rest : List Condition) (b : Bool)
      → ((v : ℕ) → meets n (condition v) ≡ (field == v))
      → meets_all n rest ≡ b
      → meets_all n (where_ condition o ++ rest) ≡ (agrees o field && b)
  meets-where_-append condition field o rest b h e =
      meets_all-append (where_ condition o) rest
      ∙ ap (λ x. x && meets_all n rest) (meets-where_ condition field o h)
      ∙ ap (λ y. agrees o field && y) e

  meets-conditions_of :
      (s c o e : Option ℕ)
      → meets_all n (conditions_of s c o e) ≡ (
          agrees s n.status
          && (agrees c n.channel && (agrees o n.source_service && agrees e n.event_type)))
  unfolding conditions_of meets
  meets-conditions_of s c o e =
      meets-where_-append status_is n.status s _ _ (λ v. refl)
        (meets-where_-append channel_is n.channel c _ _ (λ v. refl)
          (meets-where_-append source_is n.source_service o _ _ (λ v. refl)
            (meets-where_ event_is n.event_type e (λ v. refl))))

module _ (f : Filters) where
  -- The four values are those of the filters.
  pub record Resolved (s c o e : Option ℕ) : Type 0 where
    pub status_ok : value_of_filter status_member status_value f.status ≡ ok s
    pub channel_ok : value_of_filter channel_member channel_value f.channel ≡ ok c
    pub source_ok : value_of_filter source_member source_value f.source_service ≡ ok o
    pub event_ok : value_of_filter event_member event_value f.event_type ≡ ok e

  module _ (s c o e : Option ℕ) (known : Resolved s c o e) (n : Notification) where
    pub matches : meets_all n (conditions_of s c o e) ≡ true → Matches f n
    matches h =
        let (hs, h1) = both-true n _ _ (sym (meets-conditions_of n s c o e) ∙ h) in
        let (hc, h2) = both-true n _ _ h1 in
        let (ho, he) = both-true n _ _ h2 in
        record {
          status = agrees-Passes _ _ n.status f.status s known.status_ok hs;
          channel = agrees-Passes _ _ n.channel f.channel c known.channel_ok hc;
          source = agrees-Passes _ _ n.source_service f.source_service o known.source_ok ho;
          event = agrees-Passes _ _ n.event_type f.event_type e known.event_ok he;
        }

    pub Matches-meets : Matches f n → meets_all n (conditions_of s c o e) ≡ true
    Matches-meets m =
        meets-conditions_of n s c o e
        ∙ rw
            (
              Passes-agrees _ _ n.status s known.status_ok m.status,
              Passes-agrees _ _ n.channel c known.channel_ok m.channel,
              Passes-agrees _ _ n.source_service o known.source_ok m.source,
              Passes-agrees _ _ n.event_type e known.event_ok m.event,
            )
            refl
