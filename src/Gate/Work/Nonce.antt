-- ===== src/Gate/Work/Nonce.antt =====
-- IsNonce of gate.go, and the nonces that the searches give.
use aamio_go.Prelude.{
  ℕ, zero, suc, ◌+◌, ◌≤◌, ◌<◌, ◌^◌, ◌≡◌, refl, ℤ, ap, ◌∙◌, Bool, true, false, ◌&&◌, ◌||◌, [], ◌∷◌,
  Option, none, Text, ltb, leb, ◌==◌, if◌then◌else◌, all, all-itoa, length, length-itoa,
  length-itoa_pos, itoa, arith, Bool-cases, inl, inr,
}
use aamio_go.Errors.{ok}
use aamio_go.Codec.Utf8.{runes, runes_ascii}
use aamio_go.Gate.Work.{
  reaches, pow_prefix, board_prefix, nonce, solve_loop, is_past, solve_until, solve_board,
}

abbrev is_nonce_char : ℕ → Bool
is_nonce_char r =
    (leb b'A' r && leb r b'Z')
    || (leb b'a' r && leb r b'z')
    || (leb b'0' r && leb r b'9')
    || r == b'_'
    || r == b'-'

-- The length is that in bytes, the loop is over the runes.
unfoldable pub is_nonce : Text → Bool
is_nonce s = if ltb (length s) 1 || ltb 64 (length s) then false else all is_nonce_char (runes s)

digits_ascii :
    (s : Text)
    → all (λ c. leb b'0' c && leb c b'9') s ≡ true
    → (all (λ c. ltb c 0x80) s ≡ true) × (all is_nonce_char s ≡ true)
digits_ascii [] h = (refl, refl)
digits_ascii (c ∷ s) h = ground (arith, digits_ascii s)

itoa-is_nonce : (n : ℕ) → n < 10 ^ 64 → is_nonce (itoa n) ≡ true
unfolding is_nonce
itoa-is_nonce n h =
    let (ascii, digits) = digits_ascii (itoa n) (all-itoa n) in
    rw (runes_ascii (itoa n) ascii, digits) (ground (arith, length-itoa 63 n h, length-itoa_pos n))

module _ (test : ℕ → Bool) (deadline : Option (ℕ → Bool)) where
  -- The loop gives the decimal of a number that it tried.
  solve_loop-tried :
      (f n : ℕ) (s : Text)
      → solve_loop test deadline f n ≡ nonce s
      → (m : ℕ) × (s ≡ itoa m) × (m < n + f)
  unfolding solve_loop
  solve_loop-tried zero n s h = cc
  solve_loop-tried (suc f) n s h = elim (Bool-cases (test n)) [
    | inl e ↦ (n, ground arith, omega arith)
    | inr e ↦ elim (Bool-cases (is_past deadline n)) [
      | inl p ↦ absurd (ground arith)
      | inr p ↦ let (m, b, c) = solve_loop-tried f (suc n) s (ground arith) in (m, b, omega arith)
    ]
  ]

  loop-is_nonce :
      (f : ℕ) (s : Text) → f ≤ 10 ^ 64 → solve_loop test deadline f 0 ≡ nonce s → is_nonce s ≡ true
  loop-is_nonce f s room h =
      let (m, e, b) = solve_loop-tried f 0 s h in ap is_nonce e ∙ itoa-is_nonce m (omega arith)

-- A nonce that SolveUntil gives is valid for X-Work, while its counter is an int.
pub solve_until-is_nonce :
    (fuel : ℕ) (w key body : Text) (bits : ℤ) (deadline : Option (ℕ → Bool)) (s : Text)
    → fuel ≤ 2 ^ 63
    → solve_until fuel w key body bits deadline ≡ ok (nonce s)
    → is_nonce s ≡ true
unfolding solve_until
solve_until-is_nonce fuel w key body bits deadline s room h =
    let test = reaches (pow_prefix w key body) bits in
    loop-is_nonce test deadline fuel s (omega arith) (ground arith)

-- So is one that SolveBoard gives.
solve_board-is_nonce :
    (fuel : ℕ) (key body : Text) (bits : ℤ) (s : Text)
    → fuel ≤ 2 ^ 63
    → solve_board fuel key body bits ≡ ok (nonce s)
    → is_nonce s ≡ true
unfolding solve_board
solve_board-is_nonce fuel key body bits s room h =
    let test = reaches (board_prefix key body) bits in
    loop-is_nonce test none fuel s (omega arith) (ground arith)
