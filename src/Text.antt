-- ===== src/Text.antt =====
-- `str.lower()` and `str.upper()` on ASCII letters and on the characters outside ASCII that Python maps to
-- ASCII letters. Any other character stays as it is: Python maps some of them to others, but never into
-- a text of ASCII letters, which all names of the program's enumerations are.
use Prim.Native.Char.{Char, code}
use Prim.Native.String.{◌++◌ as text_append}
use high_throughput_notifica.Prelude.{ℕ, String, List, [], ◌∷◌, ◌==◌, if◌then◌else◌, ◌≡◌, refl}
use high_throughput_notifica.Decimal.{Bytes, str}

abbrev letters : List (Char × Char)
letters =
    ("A", "a")
    ∷ ("B", "b")
    ∷ ("C", "c")
    ∷ ("D", "d")
    ∷ ("E", "e")
    ∷ ("F", "f")
    ∷ ("G", "g")
    ∷ ("H", "h")
    ∷ ("I", "i")
    ∷ ("J", "j")
    ∷ ("K", "k")
    ∷ ("L", "l")
    ∷ ("M", "m")
    ∷ ("N", "n")
    ∷ ("O", "o")
    ∷ ("P", "p")
    ∷ ("Q", "q")
    ∷ ("R", "r")
    ∷ ("S", "s")
    ∷ ("T", "t")
    ∷ ("U", "u")
    ∷ ("V", "v")
    ∷ ("W", "w")
    ∷ ("X", "x")
    ∷ ("Y", "y")
    ∷ ("Z", "z")
    ∷ []

-- The characters outside ASCII that Python maps to ASCII letters: the sign for Kelvin in lower case, and
-- in upper case the i without a dot, the long and the sharp s, and the ligatures.
to_lower : List (Char × Char) → Char → Char
to_lower [] c = if code c == 8490 then "k" else c
to_lower ((u, l) ∷ rest) c = if code c == code u then l else to_lower rest c

abbrev expansions : List (ℕ × String)
expansions =
    (305, "I")
    ∷ (383, "S")
    ∷ (223, "SS")
    ∷ (64256, "FF")
    ∷ (64257, "FI")
    ∷ (64258, "FL")
    ∷ (64259, "FFI")
    ∷ (64260, "FFL")
    ∷ (64261, "ST")
    ∷ (64262, "ST")
    ∷ []

expand : List (ℕ × String) → Char → String
expand [] c = String.◌∷◌ c ""
expand ((k, s) ∷ rest) c = if code c == k then s else expand rest c

to_upper : List (Char × Char) → Char → String
unfolding expand
to_upper [] c = expand expansions c
to_upper ((u, l) ∷ rest) c = if code c == code l then String.◌∷◌ u "" else to_upper rest c

unfoldable pub lower : String → String
unfolding to_lower
lower String.[] = ""
lower (String.◌∷◌ c s) = String.◌∷◌ (to_lower letters c) (lower s)

unfoldable pub upper : String → String
unfolding to_upper
upper String.[] = ""
upper (String.◌∷◌ c s) = text_append (to_upper letters c) (upper s)

long_s_sample : upper "ſent" ≡ "SENT"
unfolding upper
long_s_sample = refl

dotless_sample : upper "shıpping" ≡ "SHIPPING"
unfolding upper
dotless_sample = refl

upper_sample : upper "Order_Created 1" ≡ "ORDER_CREATED 1"
unfolding upper
upper_sample = refl

-- `str(n)` as a text, and the braces of an f-string: the digits of the number.
digit : ℕ → Char
digit c =
    if c == b'0'
    then "0"
    else if c == b'1'
    then "1"
    else if c == b'2'
    then "2"
    else if c == b'3'
    then "3"
    else if c == b'4'
    then "4"
    else if c == b'5'
    then "5"
    else if c == b'6'
    then "6"
    else if c == b'7'
    then "7"
    else if c == b'8'
    then "8"
    else "9"

digits : Bytes → String
unfolding digit
digits [] = ""
digits (c ∷ rest) = String.◌∷◌ (digit c) (digits rest)

unfoldable pub decimal : ℕ → String
unfolding digits str
decimal n = digits (str n)

decimal_sample : decimal 1204 ≡ "1204"
unfolding decimal
decimal_sample = refl
