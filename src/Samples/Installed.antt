-- ===== src/Samples/Installed.antt =====
-- The names once a sound class has its table and its keys.
use high_throughput_notifica.Prelude.{
  ◌≡◌, refl, clash, Bool, true, false, ◌&&◌, not, String, none, some, List, [], ◌∷◌, map, All,
  str_eq, eq_iff, Bool-cases, inl, inr,
}
use high_throughput_notifica.Migration.Schema.{
  Key, Metadata, Stored, stored, Relation, a_table, an_index, Names, put, put_keys, installed,
  has_key, sound_keys, sound,
}
use high_throughput_notifica.Samples.Relations.{
  Closed, other-name, put_table-Closed, put_index-Closed,
}

unfoldable pub AllFree : Names → List Key → Type 0
AllFree names keys = All (λ (k : Key). names k.name ≡ none) keys

put-AllFree :
    (names : Names) (name : String) (r : Relation) (keys : List Key)
    → has_key name keys ≡ false
    → AllFree names keys
    → AllFree (put name r names) keys
unfolding AllFree
put-AllFree names name r [] apart free = tt
put-AllFree names name r (k ∷ rest) apart free = elim (Bool-cases (str_eq k.name name)) [
  | inl hit ↦ absurd (clash (rw hit refl) apart)
  | inr miss ↦ (rw miss free.0, put-AllFree names name r rest (rw miss at apart) free.1)
]

all_four :
    (a b c d : Bool) → (not a && not b && c && d) ≡ true → (a ≡ false) × (b ≡ false) × (d ≡ true)
all_four false false true true e = (refl, refl, refl)
all_four false false true false e = cc
all_four false false false d e = cc
all_four false true c d e = cc
all_four true b c d e = cc

sound_keys-tail :
    (t : String) (columns : List Stored) (key : Key) (rest : List Key)
    → sound_keys t columns (key ∷ rest) ≡ true
    → (str_eq key.name t ≡ false)
      × (has_key key.name rest ≡ false)
      × (sound_keys t columns rest ≡ true)
sound_keys-tail t columns key rest e = all_four (str_eq key.name t) (has_key key.name rest) _ _ e

sound_keys-table :
    (t : String) (columns : List Stored) (keys : List Key)
    → sound_keys t columns keys ≡ true
    → has_key t keys ≡ false
sound_keys-table t columns [] is_sound = refl
sound_keys-table t columns (key ∷ rest) is_sound =
    let (apart, _, sound_rest) = sound_keys-tail t columns key rest is_sound in
    rw (apart, sound_keys-table t columns rest sound_rest) refl

put_keys-Closed :
    (t : String) (columns : List Stored) (keys : List Key) (names : Names)
    → Closed names
    → names t ≡ some (a_table columns)
    → AllFree names keys
    → sound_keys t columns keys ≡ true
    → Closed (put_keys t keys names)
unfolding AllFree
put_keys-Closed t columns [] names closed there free is_sound = closed
put_keys-Closed t columns (key ∷ rest) names closed there free is_sound =
    let (_, apart, sound_rest) = sound_keys-tail t columns key rest is_sound in
    put_keys-Closed t columns rest (put key.name (an_index t key) names)
      (put_index-Closed names key.name t columns key closed there free.0)
      (rw (other-name names t key.name _ there free.0) there)
      (put-AllFree names key.name _ rest apart free.1) sound_rest

pub installed-Closed :
    (m : Metadata) (names : Names)
    → Closed names
    → sound m ≡ true
    → names m.name ≡ none
    → AllFree names m.keys
    → Closed (installed m names)
installed-Closed m names closed is_sound free keys_free =
    put_keys-Closed m.name (map stored m.columns) m.keys (put m.name (a_table _) names)
      (put_table-Closed names m.name _ closed free) (rw ((eq_iff m.name m.name).1 refl) refl)
      (put-AllFree names m.name _ m.keys (sound_keys-table m.name _ m.keys is_sound) keys_free)
      is_sound
