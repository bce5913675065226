-- ===== src/Json/Number.antt =====
-- Numbers of decoded JSON: strconv.ParseInt behind json.Number.Int64, and float64.
use aamio_go.Prelude.{
  ℕ, suc, ◌+◌, ◌-◌, ◌*◌, ◌/◌, ◌%◌, ◌^◌, Bool, true, false, ◌&&◌, [], ◌∷◌, Text, ltb, leb, ◌==◌,
  if◌then◌else◌, ℤ, pos, negsuc,
}

-- Why ParseUint stops: at a character that is no digit, or at a value past a uint64.
pub data Scan : Type 0 where
  value : ℕ → Scan
  syntax : Scan
  range : Scan

pub scan_digits : ℕ → Text → Scan
scan_digits n [] = value n
scan_digits n (c ∷ s) =
    let n' = n * 10 + (c - b'0') in
    let rest = scan_digits n' s in
    if leb b'0' c && leb c b'9' then (if ltb (2 ^ 64 - 1) n' then range else rest) else syntax

abbrev pub negate : ℕ → ℤ
negate n = if n == 0 then pos 0 else negsuc (n - 1)

-- The value is returned beside the error: 0 for a syntax error, the nearest int64 for a range error.
pub signed : Bool → Scan → ℤ × Bool
signed neg syntax = (pos 0, false)
signed true range = (negsuc (2 ^ 63 - 1), false)
signed false range = (pos (2 ^ 63 - 1), false)
signed true (value n) = if ltb (2 ^ 63) n then (negsuc (2 ^ 63 - 1), false) else (negate n, true)
signed false (value n) = if leb (2 ^ 63) n then (pos (2 ^ 63 - 1), false) else (pos n, true)

abbrev pub unsigned_digits : Text → Scan
unsigned_digits [] = syntax
unsigned_digits (c ∷ s) = scan_digits 0 (c ∷ s)

unfoldable pub parse_int : Text → ℤ × Bool
unfolding scan_digits signed
parse_int [] = (pos 0, false)
parse_int (c ∷ s) =
    if c == b'-'
    then signed true (unsigned_digits s)
    else if c == b'+'
    then signed false (unsigned_digits s)
    else signed false (unsigned_digits (c ∷ s))

-- A float64: not a number, an infinity with its sign, or ±m·2^e with its sign, m and e.
pub data Float64 : Type 0 where
  nan : Float64
  inf : Bool → Float64
  finite : Bool → ℕ → ℤ → Float64

-- The magnitude of math.Trunc, and whether it is the whole value.
abbrev pub magnitude : ℕ → ℤ → ℕ
magnitude m (pos e) = m * 2 ^ e
magnitude m (negsuc e) = m / 2 ^ suc e

abbrev pub is_whole : ℕ → ℤ → Bool
is_whole m (pos e) = true
is_whole m (negsuc e) = m % 2 ^ suc e == 0

-- The tests of `integer`: not NaN, not infinite, -2^63 ≤ n < 2^63, math.Trunc(n) == n.
unfoldable pub is_int64 : Float64 → Bool
is_int64 nan = false
is_int64 (inf _) = false
is_int64 (finite true m e) = leb (magnitude m e) (2 ^ 63) && is_whole m e
is_int64 (finite false m e) = ltb (magnitude m e) (2 ^ 63) && is_whole m e

-- int64(f), towards zero; out of range it is -2^63, as on amd64.
unfoldable pub int64_of : Float64 → ℤ
int64_of nan = negsuc (2 ^ 63 - 1)
int64_of (inf _) = negsuc (2 ^ 63 - 1)
int64_of (finite true m e) =
    if leb (magnitude m e) (2 ^ 63) then negate (magnitude m e) else negsuc (2 ^ 63 - 1)
int64_of (finite false m e) =
    if ltb (magnitude m e) (2 ^ 63) then pos (magnitude m e) else negsuc (2 ^ 63 - 1)
