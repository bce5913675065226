-- ===== src/Gate/Work/Tests.antt =====
-- The theorems of Work at concrete inputs. The nonce of 8 bits is found by running the search.
use aamio_go.Prelude.{
  ℕ, pos, ◌≤◌, ◌<◌, ◌≡◌, ◌↔◌, ◌≤ℤ◌, refl, false, [], ◌∷◌, none, Text, All, take, itoa, itoa_ℤ,
  codes, arith, pos_part, ltb, ◌*◌, ◌/◌, ◌^◌, ◌∙◌, sym, if◌then◌else◌,
}
use aamio_go.Errors.{ok}
use aamio_go.Codec.{sha256_hex}
use aamio_go.Codec.Hex
use aamio_go.Codec.Sha256.{sum256}
use aamio_go.Gate.Work.{
  pow_input, pow_digest, zero_bits, top_zeros, nonce, is_past, reaches, pow_prefix, solve_until,
}
use aamio_go.Gate.Work.Timing.{Floats, hash_rate, hash_rate_lem, expected_seconds, describe_seconds}
use aamio_go.Gate.Work.Bits.{bits, zero_bits_iff}
use aamio_go.Gate.Work.Search.{strength, Ends, solve_until-Ends, solve_until_finds}

abbrev address : Text
address = codes "ohcibx4t22xc6hx22fch"

abbrev body : Text
body = codes "hi"

-- The first nonce of 6 bits is found by running the search.
found : solve_until 100 address [] body (pos 6) none ≡ ok (nonce (codes "16"))
unfolding solve_until reaches pow_prefix sha256_hex Hex.encode sum256 zero_bits top_zeros itoa
    is_past
found = refl

strength_16 : pos 6 ≤ℤ pos (strength address [] body (itoa 16))
unfolding pow_digest pow_input sha256_hex Hex.encode sum256 zero_bits top_zeros itoa
strength_16 = omega arith

never_past : (j : ℕ) → j < 16 → is_past none j ≡ false
unfolding is_past
never_past j h = refl

solve_until-Ends_example : Ends 100 address [] body (pos 6) none (nonce (codes "16"))
solve_until-Ends_example =
    solve_until-Ends 100 address [] body (pos 6) none (nonce (codes "16")) found

solve_until_finds_example :
    (s : Text) × (solve_until 100 address [] body (pos 6) none ≡ ok (nonce s))
solve_until_finds_example =
    solve_until_finds 100 address [] body (pos 6) none 16 (omega arith) (omega arith) strength_16
      (omega arith) never_past

zero_bits_iff_example :
    (12 ≤ zero_bits (0 ∷ 15 ∷ [])) ↔ All (λ b. b ≡ 0) (take 12 (bits (0 ∷ 15 ∷ [])))
zero_bits_iff_example = zero_bits_iff (0 ∷ 15 ∷ []) 12 (omega arith) (omega arith)

-- Times in whole seconds, rounded down.
abbrev whole : Floats
whole = record {
  F = ℕ;
  of_int = pos_part;
  pow = λ a b. a ^ b;
  divide = λ a b. a / b;
  round = λ a. a;
  max = λ a b. if ltb a b then b else a;
  is_less = ltb;
  to_int = pos;
  one_decimal = itoa;
}

ten_minutes : describe_seconds whole 600 ≡ codes "10 minutes"
unfolding describe_seconds itoa_ℤ itoa
ten_minutes = refl

doubles : expected_seconds whole 1024 (pos 21) ≡ 2 * expected_seconds whole 1024 (pos 20)
unfolding expected_seconds
doubles = refl

-- A clock that moves by a tenth of a second.
three_batches : hash_rate whole 9 (λ k. k * 10 ^ 8) none ≡ hash_rate whole 5 (λ k. k * 10 ^ 8) none
three_batches =
    let tenth : ℕ → ℕ = λ k. k * 10 ^ 8 in
    let (long, _) =
      hash_rate_lem whole tenth 3 9 (λ i e. omega arith) (omega arith) (omega arith) in
    let (short, _) =
      hash_rate_lem whole tenth 3 5 (λ i e. omega arith) (omega arith) (omega arith) in
    long ∙ sym short
