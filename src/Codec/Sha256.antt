-- ===== src/Codec/Sha256.antt =====
-- crypto/sha256 (FIPS 180-4), which the client calls everywhere. The proofs use only that a digest
-- is 32 bytes; the tests run it.
use Prim.Native.Nat.{bit_and, bit_xor}
use aamio_go.Prelude.{
  ℕ, zero, suc, ◌+◌, ◌-◌, ◌*◌, ◌/◌, ◌%◌, ◌^◌, ◌≡◌, refl, List, [], ◌∷◌, ◌++◌, Text, IsBytes, arith,
  length, get_or, if◌then◌else◌, ◌==◌,
}

abbrev word : ℕ
word = 2 ^ 32

rotr : ℕ → ℕ → ℕ
rotr k x = x / 2 ^ k + x % 2 ^ k * 2 ^ (32 - k)

abbrev round_constants : List ℕ
round_constants =
    0x428a2f98 ∷ 0x71374491 ∷ 0xb5c0fbcf ∷ 0xe9b5dba5 ∷ 0x3956c25b ∷ 0x59f111f1 ∷ 0x923f82a4
    ∷ 0xab1c5ed5 ∷ 0xd807aa98 ∷ 0x12835b01 ∷ 0x243185be ∷ 0x550c7dc3 ∷ 0x72be5d74 ∷ 0x80deb1fe
    ∷ 0x9bdc06a7 ∷ 0xc19bf174 ∷ 0xe49b69c1 ∷ 0xefbe4786 ∷ 0x0fc19dc6 ∷ 0x240ca1cc ∷ 0x2de92c6f
    ∷ 0x4a7484aa ∷ 0x5cb0a9dc ∷ 0x76f988da ∷ 0x983e5152 ∷ 0xa831c66d ∷ 0xb00327c8 ∷ 0xbf597fc7
    ∷ 0xc6e00bf3 ∷ 0xd5a79147 ∷ 0x06ca6351 ∷ 0x14292967 ∷ 0x27b70a85 ∷ 0x2e1b2138 ∷ 0x4d2c6dfc
    ∷ 0x53380d13 ∷ 0x650a7354 ∷ 0x766a0abb ∷ 0x81c2c92e ∷ 0x92722c85 ∷ 0xa2bfe8a1 ∷ 0xa81a664b
    ∷ 0xc24b8b70 ∷ 0xc76c51a3 ∷ 0xd192e819 ∷ 0xd6990624 ∷ 0xf40e3585 ∷ 0x106aa070 ∷ 0x19a4c116
    ∷ 0x1e376c08 ∷ 0x2748774c ∷ 0x34b0bcb5 ∷ 0x391c0cb3 ∷ 0x4ed8aa4a ∷ 0x5b9cca4f ∷ 0x682e6ff3
    ∷ 0x748f82ee ∷ 0x78a5636f ∷ 0x84c87814 ∷ 0x8cc70208 ∷ 0x90befffa ∷ 0xa4506ceb ∷ 0xbef9a3f7
    ∷ 0xc67178f2 ∷ []

pub record Hash : Type 0 where
  pub a : ℕ
  pub b : ℕ
  pub c : ℕ
  pub d : ℕ
  pub e : ℕ
  pub f : ℕ
  pub g : ℕ
  pub h : ℕ

start : Hash
start = record {
  a = 0x6a09e667;
  b = 0xbb67ae85;
  c = 0x3c6ef372;
  d = 0xa54ff53a;
  e = 0x510e527f;
  f = 0x9b05688c;
  g = 0x1f83d9ab;
  h = 0x5be0cd19;
}

-- The 16 words before, latest first: w(t-2), w(t-7), w(t-15) and w(t-16) stand at 1, 6, 14, 15.
next_word : List ℕ → ℕ
unfolding rotr
next_word ws =
    let x = get_or ws 14 0 in
    let y = get_or ws 1 0 in
    let s0 = bit_xor (bit_xor (rotr 7 x) (rotr 18 x)) (x / 2 ^ 3) in
    let s1 = bit_xor (bit_xor (rotr 17 y) (rotr 19 y)) (y / 2 ^ 10) in
    (get_or ws 15 0 + s0 + get_or ws 6 0 + s1) % word

schedule : ℕ → List ℕ → List ℕ
unfolding next_word
schedule zero ws = ws
schedule (suc n) ws = schedule n (next_word ws ∷ ws)

round : Hash → ℕ → ℕ → Hash
unfolding rotr
round s k w =
    let s1 = bit_xor (bit_xor (rotr 6 s.e) (rotr 11 s.e)) (rotr 25 s.e) in
    let ch = bit_xor (bit_and s.e s.f) (bit_and (word - 1 - s.e) s.g) in
    let t1 = (s.h + s1 + ch + k + w) % word in
    let s0 = bit_xor (bit_xor (rotr 2 s.a) (rotr 13 s.a)) (rotr 22 s.a) in
    let maj = bit_xor (bit_xor (bit_and s.a s.b) (bit_and s.a s.c)) (bit_and s.b s.c) in
    record {
      a = (t1 + s0 + maj) % word;
      b = s.a;
      c = s.b;
      d = s.c;
      e = (s.d + t1) % word;
      f = s.e;
      g = s.f;
      h = s.g;
    }

rounds : List ℕ → List ℕ → Hash → Hash
unfolding round
rounds [] ws s = s
rounds (k ∷ ks) [] s = s
rounds (k ∷ ks) (w ∷ ws) s = rounds ks ws (round s k w)

rev_onto : List ℕ → List ℕ → List ℕ
rev_onto [] out = out
rev_onto (x ∷ xs) out = rev_onto xs (x ∷ out)

compress : List ℕ → Hash → Hash
unfolding rounds schedule rev_onto
compress block s =
    let r = rounds round_constants (rev_onto (schedule 48 (rev_onto block [])) []) s in
    record {
      a = (s.a + r.a) % word;
      b = (s.b + r.b) % word;
      c = (s.c + r.c) % word;
      d = (s.d + r.d) % word;
      e = (s.e + r.e) % word;
      f = (s.f + r.f) % word;
      g = (s.g + r.g) % word;
      h = (s.h + r.h) % word;
    }

-- A full block of 16 words is compressed as soon as it is there.
flush : ℕ → List ℕ → Hash → List ℕ × Hash
unfolding compress
flush n full h = if n == 16 then ([], compress full h) else (full, h)

-- The words of the padded message, four bytes each.
absorb : Text → List ℕ → Hash → Hash
unfolding flush
absorb (p ∷ q ∷ r ∷ t ∷ s) block h =
    let full = block ++ (p * 2 ^ 24 + q * 2 ^ 16 + r * 2 ^ 8 + t) ∷ [] in
    let next = flush (length full) full h in absorb s next.0 next.1
absorb _ block h = h

zeros : ℕ → Text
zeros zero = []
zeros (suc n) = 0 ∷ zeros n

be_bytes : ℕ → ℕ → Text
be_bytes zero x = []
be_bytes (suc n) x = (x / 2 ^ (8 * n) % 256) ∷ be_bytes n x

pad : Text → Text
unfolding zeros be_bytes
pad s = let n = length s in s ++ 0x80 ∷ (zeros ((119 - n % 64) % 64) ++ be_bytes 8 (8 * n % 2 ^ 64))

digest : Hash → Text
unfolding be_bytes
digest s =
    be_bytes 4 s.a
    ++ be_bytes 4 s.b
    ++ be_bytes 4 s.c
    ++ be_bytes 4 s.d
    ++ be_bytes 4 s.e
    ++ be_bytes 4 s.f
    ++ be_bytes 4 s.g
    ++ be_bytes 4 s.h

unfoldable pub sum256 : Text → Text
unfolding absorb pad digest start
sum256 s = digest (absorb (pad s) [] start)

pub length-sum256 : (s : Text) → length (sum256 s) ≡ 32
unfolding sum256
length-sum256 s = refl

digest-IsBytes : (s : Hash) → IsBytes (digest s)
unfolding digest
digest-IsBytes s = omega arith

pub sum256-IsBytes : (s : Text) → IsBytes (sum256 s)
unfolding sum256
sum256-IsBytes s = digest-IsBytes _
