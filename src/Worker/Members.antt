-- ===== src/Worker/Members.antt =====
-- Lists of identifiers, as the members that wait in the queue.
use high_throughput_notifica.Prelude.{
  ℕ, ◌≤◌, ◌<◌, ◌≡◌, ◌≢◌, Bool, true, false, ◌||◌, List, [], ◌∷◌, length, ◌==◌, if◌then◌else◌, arith,
}

unfoldable pub has : ℕ → List ℕ → Bool
has i [] = false
has i (j ∷ rest) = i == j || has i rest

unfoldable pub remove : ℕ → List ℕ → List ℕ
remove i [] = []
remove i (j ∷ rest) = let others = remove i rest in if i == j then others else j ∷ others

pub has-remove : (i j : ℕ) (l : List ℕ) → has j (remove i l) ≡ true → (has j l ≡ true) × (i ≢ j)
unfolding has remove
has-remove i j [] h = cc
has-remove i j (k ∷ rest) h = ground (arith, has-remove i j rest)

pub has-remove_ne : (i j : ℕ) (l : List ℕ) → has j l ≡ true → i ≢ j → has j (remove i l) ≡ true
unfolding has remove
has-remove_ne i j [] h ne = cc
has-remove_ne i j (k ∷ rest) h ne = ground (arith, has-remove_ne i j rest)

pub has-remove_same : (i : ℕ) (l : List ℕ) → has i (remove i l) ≡ false
unfolding has remove
has-remove_same i [] = cc
has-remove_same i (k ∷ rest) = ground (arith, has-remove_same i rest)

remove-length : (i : ℕ) (l : List ℕ) → length (remove i l) ≤ length l
unfolding remove
remove-length i [] = omega arith
remove-length i (k ∷ rest) = ground (arith, remove-length i rest)

pub remove-shorter : (i : ℕ) (l : List ℕ) → has i l ≡ true → length (remove i l) < length l
unfolding has remove
remove-shorter i [] h = cc
remove-shorter i (k ∷ rest) h = ground (arith, remove-shorter i rest, remove-length i rest)
