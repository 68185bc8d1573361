-- ===== src/Samples/Relations.antt =====
-- A catalogue that is a function on names. An index whose table is not there is not seen.
use high_throughput_notifica.Prelude.{
  ◌≡◌, refl, sym, ap, ◌∙◌, some_eq, some≢none, none≢some, clash, Bool, true, false, String, Option,
  none, some, List, str_eq, eq_iff, if◌then◌else◌, Bool-cases, inl, inr,
}
use high_throughput_notifica.Migration.Schema.{
  Key, Stored, Relation, a_table, an_index, Names, put, take_out, unless_of,
}

abbrev is_table : Option Relation → Bool
is_table none = false
is_table (some (a_table columns)) = true
is_table (some (an_index on key)) = false

abbrev seen : Names → Option Relation → Option Relation
seen names none = none
seen names (some (a_table columns)) = some (a_table columns)
seen names (some (an_index on key)) = if is_table (names on) then some (an_index on key) else none

abbrev pub view : Names → Names
view names u = seen names (names u)

-- Every index stands on a table.
abbrev pub Closed : Names → Type 0
Closed names =
    (u on : String) (key : Key)
    → names u ≡ some (an_index on key)
    → (columns : List Stored) × (names on ≡ some (a_table columns))

table-of :
    (o : Option Relation)
    → is_table o ≡ true
    → (columns : List Stored) × (o ≡ some (a_table columns))
table-of none e = absurd (clash e refl)
table-of (some (a_table columns)) e = (columns, refl)
table-of (some (an_index on key)) e = absurd (clash e refl)

pub view-Closed : (names : Names) → Closed (view names)
view-Closed names u on key stands = go (names u) stands
  where
    go :
        (o : Option Relation)
        → seen names o ≡ some (an_index on key)
        → (columns : List Stored) × (view names on ≡ some (a_table columns))
    go none e = absurd (none≢some e)
    go (some (a_table columns)) e = absurd (apart (some_eq e))
      where
        apart : ¬ (a_table columns ≡ an_index on key)
        apart p = cc
    go (some (an_index on' key')) e = elim (Bool-cases (is_table (names on'))) [
      | inl there ↦
          let same_on : on' ≡ on = (let p = some_eq (rw there at e) in cc) in
          let (columns, is_it) =
            table-of (names on) (ap (λ x. is_table (names x)) (sym same_on) ∙ there) in
          (columns, ap (seen names) is_it)
      | inr gone ↦ absurd (none≢some (rw gone at e))
    ]

pub Closed-view : (names : Names) → Closed names → (u : String) → view names u ≡ names u
Closed-view names closed u = go (names u) refl
  where
    go : (o : Option Relation) → names u ≡ o → seen names o ≡ o
    go none e = refl
    go (some (a_table columns)) e = refl
    go (some (an_index on key)) e = let (columns, there) = closed u on key e in rw there refl

table≢index :
    {columns : List Stored} {on : String} {key : Key} → ¬ (a_table columns ≡ an_index on key)
table≢index p = cc

-- Another name than one that is put in or taken out.
pub other-name :
    (names : Names) (u name : String) (r : Relation)
    → names u ≡ some r
    → names name ≡ none
    → str_eq u name ≡ false
other-name names u name r stands free = elim (Bool-cases (str_eq u name)) [
  | inl hit ↦ absurd (some≢none (sym stands ∙ ap names ((eq_iff u name).0 hit) ∙ free))
  | inr miss ↦ miss
]

pub put_table-Closed :
    (names : Names) (t : String) (columns : List Stored)
    → Closed names
    → names t ≡ none
    → Closed (put t (a_table columns) names)
put_table-Closed names t columns closed free u on key stands = elim (Bool-cases (str_eq u t)) [
  | inl hit ↦ absurd (table≢index (some_eq (rw hit at stands)))
  | inr miss ↦
      let (cs, there) = closed u on key (rw miss at stands) in
      (cs, rw (other-name names on t _ there free) there)
]

pub put_index-Closed :
    (names : Names) (name t : String) (columns : List Stored) (key : Key)
    → Closed names
    → names t ≡ some (a_table columns)
    → names name ≡ none
    → Closed (put name (an_index t key) names)
put_index-Closed names name t columns key closed there free u on key' stands =
    elim (Bool-cases (str_eq u name)) [
      | inl hit ↦
          let e : t ≡ on = (let p = some_eq (rw hit at stands) in cc) in
          let on_there = ap names (sym e) ∙ there in
          (columns, rw (other-name names on name _ on_there free) on_there)
      | inr miss ↦
          let (cs, on_there) = closed u on key' (rw miss at stands) in
          (cs, rw (other-name names on name _ on_there free) on_there)
    ]

pub take_out-Closed :
    (names : Names) (name t : String) (key : Key)
    → Closed names
    → names name ≡ some (an_index t key)
    → Closed (take_out name names)
take_out-Closed names name t key closed index u on key' stands = elim (Bool-cases (str_eq u name)) [
  | inl hit ↦ absurd (none≢some (rw hit at stands))
  | inr miss ↦
      let (cs, there) = closed u on key' (rw miss at stands) in
      elim (Bool-cases (str_eq on name)) [
        | inl same ↦
            absurd (table≢index (some_eq (sym there ∙ ap names ((eq_iff on name).0 same) ∙ index)))
        | inr apart ↦ (cs, rw apart there)
      ]
]

unfoldable pub without : String → Names → Names
without t names u = unless_of t (take_out t names u)

pub without-Closed : (names : Names) (t : String) → Closed names → Closed (without t names)
unfolding without
without-Closed names t closed u on key stands = go (take_out t names u) refl stands
  where
    go :
        (o : Option Relation)
        → take_out t names u ≡ o
        → unless_of t o ≡ some (an_index on key)
        → (columns : List Stored) × (without t names on ≡ some (a_table columns))
    go none e p = absurd (none≢some p)
    go (some (a_table columns)) e p = absurd (table≢index (some_eq p))
    go (some (an_index on' key')) e p = elim (Bool-cases (str_eq on' t)) [
      | inl hit ↦ absurd (none≢some (rw hit at p))
      | inr miss ↦
          let same_on : on' ≡ on = (let q = some_eq (rw miss at p) in cc) in
          elim (Bool-cases (str_eq u t)) [
            | inl gone ↦ absurd (none≢some (rw gone at e))
            | inr here ↦
                let (cs, there) = closed u on' key' (rw here at e) in
                (cs, rw (← same_on, miss, there) refl)
          ]
    ]
