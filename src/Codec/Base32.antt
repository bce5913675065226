-- ===== src/Codec/Base32.antt =====
-- base32 of codec.go: RFC 4648, no padding, lowercased.
use aamio_go.Prelude.{
  ℕ, ◌+◌, ◌-◌, ◌*◌, ◌/◌, ◌%◌, ◌<◌, Bool, ◌&&◌, ◌||◌, true, ◌≡◌, [], ◌∷◌, Text, ltb, leb,
  if◌then◌else◌, arith, All, All-append, ◌++◌, IsBytes, length, ◌≤◌,
}

-- RFC 4648's alphabet, A to Z and then 2 to 7, behind strings.ToLower.
unfoldable pub lower_char_of : ℕ → ℕ
lower_char_of v = if ltb v 26 then b'a' + v else b'2' + (v - 26)

-- The eight characters of five bytes.
abbrev group : ℕ → ℕ → ℕ → ℕ → ℕ → Text
group a b c d e =
    lower_char_of (a / 8)
    ∷ lower_char_of (a % 8 * 4 + b / 64)
    ∷ lower_char_of (b / 2 % 32)
    ∷ lower_char_of (b % 2 * 16 + c / 16)
    ∷ lower_char_of (c % 16 * 2 + d / 128)
    ∷ lower_char_of (d / 4 % 32)
    ∷ lower_char_of (d % 4 * 8 + e / 32)
    ∷ lower_char_of (e % 32)
    ∷ []

-- Groups of five bytes are eight characters; a last group of n bytes has ⌈8n/5⌉.
unfoldable pub base32 : Text → Text
unfolding lower_char_of
base32 [] = []
base32 (a ∷ []) = lower_char_of (a / 8) ∷ lower_char_of (a % 8 * 4) ∷ []
base32 (a ∷ b ∷ []) =
    lower_char_of (a / 8)
    ∷ lower_char_of (a % 8 * 4 + b / 64)
    ∷ lower_char_of (b / 2 % 32)
    ∷ lower_char_of (b % 2 * 16)
    ∷ []
base32 (a ∷ b ∷ c ∷ []) =
    lower_char_of (a / 8)
    ∷ lower_char_of (a % 8 * 4 + b / 64)
    ∷ lower_char_of (b / 2 % 32)
    ∷ lower_char_of (b % 2 * 16 + c / 16)
    ∷ lower_char_of (c % 16 * 2)
    ∷ []
base32 (a ∷ b ∷ c ∷ d ∷ []) =
    lower_char_of (a / 8)
    ∷ lower_char_of (a % 8 * 4 + b / 64)
    ∷ lower_char_of (b / 2 % 32)
    ∷ lower_char_of (b % 2 * 16 + c / 16)
    ∷ lower_char_of (c % 16 * 2 + d / 128)
    ∷ lower_char_of (d / 4 % 32)
    ∷ lower_char_of (d % 4 * 8)
    ∷ []
base32 (a ∷ b ∷ c ∷ d ∷ e ∷ s) = group a b c d e ++ base32 s

-- wPattern's class, [a-z2-7].
unfoldable pub is_base32_char : ℕ → Bool
is_base32_char c = (leb b'a' c && leb c b'z') || (leb b'2' c && leb c b'7')

lower_char_of_lem : (v : ℕ) → v < 32 → is_base32_char (lower_char_of v) ≡ true
unfolding is_base32_char lower_char_of
lower_char_of_lem v h = ground arith

abbrev IsBase32 : ℕ → Type 0
IsBase32 c = is_base32_char c ≡ true

-- The eight values of a group of five bytes.
pub base32-IsBase32 : (s : Text) → IsBytes s → All IsBase32 (base32 s)
unfolding base32
base32-IsBase32 [] h = tt
base32-IsBase32 (a ∷ []) h = omega (arith, lower_char_of_lem)
base32-IsBase32 (a ∷ b ∷ []) h = omega (arith, lower_char_of_lem)
base32-IsBase32 (a ∷ b ∷ c ∷ []) h = omega (arith, lower_char_of_lem)
base32-IsBase32 (a ∷ b ∷ c ∷ d ∷ []) h = omega (arith, lower_char_of_lem)
base32-IsBase32 (a ∷ b ∷ c ∷ d ∷ e ∷ s) h =
    All-append IsBase32 (group a b c d e) _ (omega (arith, lower_char_of_lem))
      (base32-IsBase32 s h.1.1.1.1.1)

pub length-base32 : (s : Text) → 8 * length s ≤ 5 * length (base32 s)
unfolding base32
length-base32 [] = omega arith
length-base32 (a ∷ []) = omega arith
length-base32 (a ∷ b ∷ []) = omega arith
length-base32 (a ∷ b ∷ c ∷ []) = omega arith
length-base32 (a ∷ b ∷ c ∷ d ∷ []) = omega arith
length-base32 (a ∷ b ∷ c ∷ d ∷ e ∷ s) = omega (arith, length-base32 s)
