-- ===== src/Codec/Utf8.antt =====
-- The runes of a Go string, as `for _, r := range s` reads them, and utf8.EncodeRune.
use aamio_go.Prelude.{
  ℕ, zero, suc, ◌+◌, ◌-◌, ◌*◌, ◌/◌, ◌%◌, Bool, ◌&&◌, ◌||◌, List, [], ◌∷◌, ◌++◌, Text, ltb, leb,
  ◌==◌, get_or, if◌then◌else◌, all, true, ◌≡◌, refl, ap, ◌∙◌, arith,
}

between : ℕ → ℕ → ℕ → Bool
between lo hi c = leb lo c && leb c hi

-- The second byte's range hangs on the first: no overlong form, no surrogate, none past U+10FFFF.
second : ℕ → ℕ → Bool
unfolding between
second b c =
    between (if b == 0xe0 then 0xa0 else if b == 0xf0 then 0x90 else 0x80)
      (if b == 0xed then 0x9f else if b == 0xf4 then 0x8f else 0xbf) c

abbrev pub replacement : ℕ
replacement = 0xfffd

-- The rune at the byte b with s behind it, and how many bytes of s belong to it. A byte that
-- starts no encoding is a replacement of its own.
pub decode_rune : ℕ → Text → ℕ × ℕ
unfolding second
decode_rune b s =
    let c = get_or s 0 0 in
    let d = get_or s 1 0 in
    let e = get_or s 2 0 in
    if ltb b 0x80
    then (b, 0)
    else if between 0xc2 0xdf b && second b c
    then ((b - 0xc0) * 64 + (c - 0x80), 1)
    else if between 0xe0 0xef b && second b c && between 0x80 0xbf d
    then ((b - 0xe0) * 4096 + (c - 0x80) * 64 + (d - 0x80), 2)
    else if between 0xf0 0xf4 b && second b c && between 0x80 0xbf d && between 0x80 0xbf e
    then ((b - 0xf0) * 262144 + (c - 0x80) * 4096 + (d - 0x80) * 64 + (e - 0x80), 3)
    else (replacement, 0)

-- The runes of a text whose first bytes, as many as the number says, belong to one before.
unfoldable pub runes_after : ℕ → Text → List ℕ
unfolding decode_rune
runes_after k [] = []
runes_after (suc k) (b ∷ s) = runes_after k s
runes_after zero (b ∷ s) = let (r, k) = decode_rune b s in r ∷ runes_after k s

unfoldable pub runes : Text → List ℕ
unfolding runes_after
runes s = runes_after 0 s

-- A surrogate and a number past U+10FFFF are written as the replacement.
unfoldable pub encode_rune : ℕ → Text
encode_rune r =
    if ltb r 0x80
    then r ∷ []
    else if ltb r 0x800
    then (0xc0 + r / 64) ∷ (0x80 + r % 64) ∷ []
    else if (leb 0xd800 r && leb r 0xdfff) || ltb 0x10ffff r
    then 0xef ∷ 0xbf ∷ 0xbd ∷ []
    else if ltb r 0x10000
    then (0xe0 + r / 4096) ∷ (0x80 + r / 64 % 64) ∷ (0x80 + r % 64) ∷ []
    else (0xf0 + r / 262144) ∷ (0x80 + r / 4096 % 64) ∷ (0x80 + r / 64 % 64) ∷ (0x80 + r % 64) ∷ []

unfoldable pub encode_runes : List ℕ → Text
encode_runes [] = []
encode_runes (r ∷ rs) = encode_rune r ++ encode_runes rs

-- The text with a replacement for each byte that starts no encoding.
unfoldable pub to_valid : Text → Text
to_valid s = encode_runes (runes s)

-- A text of ASCII is its own runes.
pub runes_ascii : (s : Text) → all (λ c. ltb c 0x80) s ≡ true → runes s ≡ s
unfolding runes
runes_ascii [] h = refl
runes_ascii (c ∷ s) h = ground (arith, runes_ascii s)

encode_runes_ascii : (s : Text) → all (λ c. ltb c 0x80) s ≡ true → encode_runes s ≡ s
unfolding encode_runes encode_rune
encode_runes_ascii [] h = refl
encode_runes_ascii (c ∷ s) h = ground (arith, encode_runes_ascii s)

-- It is valid.
pub to_valid_ascii : (s : Text) → all (λ c. ltb c 0x80) s ≡ true → to_valid s ≡ s
unfolding to_valid
to_valid_ascii s h = ap encode_runes (runes_ascii s h) ∙ encode_runes_ascii s h
