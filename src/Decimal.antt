-- ===== src/Decimal.antt =====
-- `str(n)` and `int(text)`, by which an identifier becomes a member of the sorted set and the body of
-- a retry message, and comes back. `int` is modelled on ASCII digits; on any other text it raises
-- ValueError (Python also takes a sign, blanks and underscores, which no text of the program has).
use native.Mathlib.Decide.{ℕ_discrete}
use high_throughput_notifica.Prelude.{
  ℕ, zero, suc, ◌+◌, ◌-◌, ◌*◌, ◌/◌, ◌%◌, ◌<◌, ◌≡◌, ◌≢◌, refl, ap, ◌∙◌, ◌&&◌, List, [], ◌∷◌, ltb,
  leb, Bool-cases, inl, inr, if◌then◌else◌, arith,
}
use high_throughput_notifica.Exec.{Result, ok, err, value_error}

abbrev pub Bytes : Type 0
Bytes = List ℕ

pub Bytes-discrete : Discrete Bytes
Bytes-discrete = hlevel ℕ_discrete

-- One digit a round, the last one first; `suc n` rounds are enough for `n`.
emit : ℕ → ℕ → Bytes → Bytes
emit zero n out = out
emit (suc rounds) n out =
    let digit = b'0' + n % 10 in
    let rest = emit rounds (n / 10) (digit ∷ out) in if ltb n 10 then digit ∷ out else rest

unfoldable pub str : ℕ → Bytes
unfolding emit
str n = emit (suc n) n []

scan : ℕ → Bytes → Result ℕ
scan acc [] = ok acc
scan acc (c ∷ rest) =
    let more = scan (acc * 10 + (c - b'0')) rest in
    if leb b'0' c && leb c b'9' then more else err value_error

unfoldable pub int : Bytes → Result ℕ
unfolding scan
int [] = err value_error
int (c ∷ rest) = scan 0 (c ∷ rest)

scan-digit :
    (acc n : ℕ) (out : Bytes) → scan acc ((b'0' + n % 10) ∷ out) ≡ scan (acc * 10 + n % 10) out
unfolding scan
scan-digit acc n out = ground arith

scan-emit : (rounds n : ℕ) (out : Bytes) → n < rounds → scan 0 (emit rounds n out) ≡ scan n out
unfolding emit
scan-emit zero n out h = elim h [ ]
scan-emit (suc rounds) n out h = elim (Bool-cases (ltb n 10)) [
  | inl small ↦ rw small (scan-digit 0 n out ∙ ap (λ m. scan m out) (ground arith))
  | inr large ↦ rw large (
      scan-emit rounds (n / 10) ((b'0' + n % 10) ∷ out) (ground arith)
      ∙ scan-digit (n / 10) n out
      ∙ ap (λ m. scan m out) (omega arith))
]

emit-cons : (rounds n : ℕ) (c : ℕ) (out : Bytes) → emit rounds n (c ∷ out) ≢ []
unfolding emit
emit-cons zero n c out = λ e. cc
emit-cons (suc rounds) n c out = ground (arith, emit-cons rounds (n / 10) (b'0' + n % 10) (c ∷ out))

str-ne-nil : (n : ℕ) → str n ≢ []
unfolding str
str-ne-nil n = ground (arith, emit-cons n (n / 10) (b'0' + n % 10) [])

int-eq-scan : (s : Bytes) → s ≢ [] → int s ≡ scan 0 s
unfolding int
int-eq-scan [] h = absurd (h refl)
int-eq-scan (c ∷ rest) h = refl

-- The text of an identifier reads back as that identifier.
pub int-str : (n : ℕ) → int (str n) ≡ ok n
int-str n =
    int-eq-scan (str n) (str-ne-nil n) ∙ (unfold str scan in scan-emit (suc n) n [] (omega arith))

pub str-injective : (m n : ℕ) → str m ≡ str n → m ≡ n
str-injective m n e = cc (int-str m, int-str n, ap int e)

str_sample : str 1204 ≡ b'1' ∷ b'2' ∷ b'0' ∷ b'4' ∷ []
unfolding str
str_sample = refl
