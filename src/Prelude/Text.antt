-- ===== src/Prelude/Text.antt =====
-- Texts as lists of code points, for the code that walks, joins or orders them. For valid UTF-8
-- the order of code points is the order of bytes, which is Go's `<` on strings and SQLite's BINARY.
use Prim.Native.Nat.{ℕ, zero, suc, ◌/◌, ◌%◌}
use Prim.Native.Char.{Char, code}
use Prim.Native.String.{String, ◌++◌ as join}
use Prim.Native.String.append
use mathlib.Core.Path.{◌≡◌, refl}
use mathlib.Core.Bool.{Bool, true, false, ◌&&◌, ◌||◌}
use mathlib.Core.Logic.{◌⊎◌, inl, inr}
use mathlib.Core.List.{List, [], ◌∷◌}
use native.Mathlib.Omega.{arith}
use text.Mathlib.TextEquality.{Char-path}
use uncluster.Prelude.Tests.{ltb, leb, ◌==◌, if◌then◌else◌}

abbrev pub codes : String → List ℕ
codes String.[] = []
codes (String.◌∷◌ c s) = code c ∷ codes s

-- strings.HasPrefix
unfoldable pub has_prefix : String → String → Bool
has_prefix String.[] s = true
has_prefix (String.◌∷◌ c p) String.[] = false
has_prefix (String.◌∷◌ c p) (String.◌∷◌ d s) = code c == code d && has_prefix p s

-- Some character of the text passes the test.
unfoldable pub any_char : (ℕ → Bool) → String → Bool
any_char p String.[] = false
any_char p (String.◌∷◌ c s) = p (code c) || any_char p s

-- The bytewise order, as "not after".
unfoldable pub leb_codes : List ℕ → List ℕ → Bool
leb_codes [] ys = true
leb_codes (x ∷ xs) [] = false
leb_codes (x ∷ xs) (y ∷ ys) = ltb x y || (x == y && leb_codes xs ys)

pub leb_codes_total : (xs ys : List ℕ) → (leb_codes xs ys ≡ true) ⊎ (leb_codes ys xs ≡ true)
unfolding leb_codes
leb_codes_total [] ys = inl refl
leb_codes_total (x ∷ xs) [] = inr refl
leb_codes_total (x ∷ xs) (y ∷ ys) = ground (arith, leb_codes_total xs ys)

pub leb_codes_trans :
    (xs ys zs : List ℕ) → leb_codes xs ys ≡ true → leb_codes ys zs ≡ true → leb_codes xs zs ≡ true
unfolding leb_codes
leb_codes_trans [] ys zs h k = refl
leb_codes_trans (x ∷ xs) [] zs h k = ground arith
leb_codes_trans (x ∷ xs) (y ∷ ys) [] h k = ground arith
leb_codes_trans (x ∷ xs) (y ∷ ys) (z ∷ zs) h k = ground (arith, leb_codes_trans xs ys zs)

pub leb_codes_antisymm :
    (xs ys : List ℕ) → leb_codes xs ys ≡ true → leb_codes ys xs ≡ true → xs ≡ ys
unfolding leb_codes
leb_codes_antisymm [] [] h k = refl
leb_codes_antisymm [] (y ∷ ys) h k = ground arith
leb_codes_antisymm (x ∷ xs) [] h k = ground arith
leb_codes_antisymm (x ∷ xs) (y ∷ ys) h k = ground (arith, leb_codes_antisymm xs ys)

pub codes_injective : (s t : String) → codes s ≡ codes t → s ≡ t
codes_injective String.[] String.[] h = refl
codes_injective String.[] (String.◌∷◌ d t) h = ground arith
codes_injective (String.◌∷◌ c s) String.[] h = ground arith
codes_injective (String.◌∷◌ c s) (String.◌∷◌ d t) h =
    cc (Char-path c d (ground arith), codes_injective s t (ground arith))

-- The `%d` of a number: the fuel is one more than the number, and each round divides it by ten.
decimal_digit : ℕ → String
decimal_digit d =
    if d == 0
    then "0"
    else if d == 1
    then "1"
    else if d == 2
    then "2"
    else if d == 3
    then "3"
    else if d == 4
    then "4"
    else if d == 5
    then "5"
    else if d == 6
    then "6"
    else if d == 7
    then "7"
    else if d == 8
    then "8"
    else "9"

decimal_fuel : ℕ → ℕ → String
decimal_fuel zero n = ""
decimal_fuel (suc fuel) n =
    let higher = decimal_fuel fuel (n / 10) in
    if ltb n 10 then decimal_digit n else join higher (decimal_digit (n % 10))

unfoldable pub decimal : ℕ → String
unfolding decimal_fuel decimal_digit
decimal n = decimal_fuel (suc n) n

decimal_test : decimal 1700000042 ≡ "1700000042"
unfolding decimal
decimal_test = refl

-- The native concatenation, by clauses: with a literal in front it computes.
abbrev pub prepend : String → String → String
prepend String.[] t = t
prepend (String.◌∷◌ c s) t = String.◌∷◌ c (prepend s t)

pub join-prepend : (s t : String) → join s t ≡ prepend s t
join-prepend String.[] t = rw append.nil
join-prepend (String.◌∷◌ c s) t = rw append.cons (rw (join-prepend s t))

-- unicode.IsSpace
unfoldable pub is_space : ℕ → Bool
is_space r =
    (leb 9 r && leb r 13)
    || r == 32
    || r == 0x85
    || r == 0xa0
    || r == 0x1680
    || (leb 0x2000 r && leb r 0x200a)
    || r == 0x2028
    || r == 0x2029
    || r == 0x202f
    || r == 0x205f
    || r == 0x3000

trim_left : String → String
unfolding is_space
trim_left String.[] = String.[]
trim_left (String.◌∷◌ c s) =
    let rest = trim_left s in if is_space (code c) then rest else String.◌∷◌ c s

abbrev trim_cons : Char → String → String
trim_cons c String.[] = if is_space (code c) then String.[] else String.◌∷◌ c String.[]
trim_cons c (String.◌∷◌ d s) = String.◌∷◌ c (String.◌∷◌ d s)

trim_right : String → String
unfolding is_space
trim_right String.[] = String.[]
trim_right (String.◌∷◌ c s) = trim_cons c (trim_right s)

-- strings.TrimSpace
unfoldable pub trim_space : String → String
unfolding trim_left trim_right
trim_space s = trim_right (trim_left s)
