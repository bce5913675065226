-- ===== src/Prelude/Decimal.antt =====
-- strconv.Itoa, and %d of an int64.
use Prim.Native.Nat.{ℕ, zero, suc, ◌+◌, ◌/◌, ◌%◌, ◌^◌, ◌≤◌, ◌<◌}
use mathlib.Core.Path.{◌≡◌, refl}
use mathlib.Core.Bool.{Bool, true, ◌&&◌}
use mathlib.Core.List.{[], ◌∷◌}
use native.Mathlib.Omega.{arith}
use aamio_go.Prelude.Tests.{ltb, leb, if◌then◌else◌}
use aamio_go.Prelude.Int.{ℤ, pos, negsuc}
use aamio_go.Prelude.Lists.{length, all}
use aamio_go.Prelude.Texts.{Text}

-- The digits from the last to the first; the fuel is the number itself, which has fewer digits.
digits : ℕ → ℕ → Text → Text
digits zero n out = out
digits (suc f) n out =
    let rest = digits f (n / 10) ((b'0' + n % 10) ∷ out) in
    if ltb n 10 then (b'0' + n) ∷ out else rest

unfoldable pub itoa : ℕ → Text
unfolding digits
itoa n = digits (suc n) n []

abbrev is_digit : ℕ → Bool
is_digit c = leb b'0' c && leb c b'9'

all-digits : (f n : ℕ) (out : Text) → all is_digit out ≡ true → all is_digit (digits f n out) ≡ true
unfolding digits
all-digits zero n out h = h
all-digits (suc f) n out h = ground (arith, all-digits f (n / 10) ((b'0' + n % 10) ∷ out))

pub all-itoa : (n : ℕ) → all (λ c. leb b'0' c && leb c b'9') (itoa n) ≡ true
unfolding itoa
all-itoa n = all-digits (suc n) n [] refl

-- A number below 10^(k + 1) adds at most k + 1 characters.
length-digits :
    (k f n : ℕ) (out : Text) → n < 10 ^ suc k → length (digits f n out) ≤ suc k + length out
unfolding digits
length-digits k zero n out h = omega arith
length-digits zero (suc f) n out h = ground arith
length-digits (suc k) (suc f) n out h =
    ground (arith, length-digits k f (n / 10) ((b'0' + n % 10) ∷ out))

pub length-itoa : (k n : ℕ) → n < 10 ^ suc k → length (itoa n) ≤ suc k
unfolding itoa
length-itoa k n h = omega (arith, length-digits k (suc n) n [] h)

length-digits_pos : (f n : ℕ) (out : Text) → length out ≤ length (digits f n out)
unfolding digits
length-digits_pos zero n out = omega arith
length-digits_pos (suc f) n out =
    ground (arith, length-digits_pos f (n / 10) ((b'0' + n % 10) ∷ out))

pub length-itoa_pos : (n : ℕ) → 1 ≤ length (itoa n)
unfolding itoa digits
length-itoa_pos n = ground (arith, length-digits_pos n (n / 10) ((b'0' + n % 10) ∷ []))

unfoldable pub itoa_ℤ : ℤ → Text
itoa_ℤ (pos n) = itoa n
itoa_ℤ (negsuc n) = b'-' ∷ itoa (suc n)
