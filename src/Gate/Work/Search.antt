-- ===== src/Gate/Work/Search.antt =====
-- What the search gives: the first nonce whose digest has the bits, or a stop at the deadline.
use aamio_go.Prelude.{
  ℕ, zero, suc, ◌+◌, ◌%◌, ◌≤◌, ◌<◌, ◌≡◌, refl, ℤ, pos, ◌≤ℤ◌, ◌<ℤ◌, ltb_ℤ, Bool, true, false, not,
  ◌++◌, append_assoc, Option, none, some, Text, itoa, Bool-cases, inl, inr, ◌==◌, arith, ap,
}
use aamio_go.Errors.{ok}
use aamio_go.Codec.{sha256_hex}
use aamio_go.Gate.Work.{
  pow_input, pow_digest, require_max_bits, zero_bits, Work, nonce, ran_out, no_fuel, is_past,
  solve_loop, reaches, pow_prefix, solve_until,
}

module _ (test : ℕ → Bool) (deadline : Option (ℕ → Bool)) where
  -- No number from n on and below m passes the test.
  abbrev FailBelow : ℕ → ℕ → Type 0
  FailBelow n m = (j : ℕ) → n ≤ j → j < m → test j ≡ false

  -- What each end of the loop, begun at n with fuel f, says of the numbers that it tried.
  abbrev Outcome : ℕ → ℕ → Work → Type 0
  Outcome f n (nonce s) = (m : ℕ) × (n ≤ m) × (s ≡ itoa m) × (test m ≡ true) × FailBelow n m
  Outcome f n ran_out = (m : ℕ) × (n ≤ m) × (is_past deadline m ≡ true) × FailBelow n (suc m)
  Outcome f n no_fuel = FailBelow n (n + f)

  fail_cons : (n m : ℕ) → test n ≡ false → FailBelow (suc n) m → FailBelow n m
  fail_cons n m e h j a b = elim (Bool-cases (j == n)) [
    | inl same ↦ ground arith
    | inr other ↦ h j (ground arith) b
  ]

  Outcome-step : (f n : ℕ) (r : Work) → test n ≡ false → Outcome f (suc n) r → Outcome (suc f) n r
  Outcome-step f n (nonce s) e (m, a, b, c, d) = (m, omega arith, b, c, fail_cons n m e d)
  Outcome-step f n ran_out e (m, a, b, d) = (m, omega arith, b, fail_cons n (suc m) e d)
  Outcome-step f n no_fuel e h = fail_cons n (n + suc f) e (λ j a b. h j a (omega arith))

  solve_loop-Outcome : (f n : ℕ) → Outcome f n (solve_loop test deadline f n)
  unfolding solve_loop
  solve_loop-Outcome zero n = λ j a b. absurd (omega arith)
  solve_loop-Outcome (suc f) n = elim (Bool-cases (test n)) [
    | inl e ↦ rw e (n, omega arith, refl, e, λ j a b. absurd (omega arith))
    | inr e ↦ elim (Bool-cases (is_past deadline n)) [
      | inl p ↦ rw (e, p) (n, omega arith, p, fail_cons n (suc n) e (λ j a b. absurd (omega arith)))
      | inr p ↦ rw (e, p) (Outcome-step f n _ e (solve_loop-Outcome f (suc n)))
    ]
  ]

  -- With a number that passes ahead, fuel to get there and no stop before it, the loop finds one.
  solve_loop-finds :
      (f n k : ℕ)
      → n ≤ k
      → k < n + f
      → test k ≡ true
      → ((j : ℕ) → j < k → is_past deadline j ≡ false)
      → (s : Text) × (solve_loop test deadline f n ≡ nonce s)
  unfolding solve_loop
  solve_loop-finds zero n k a b t h = absurd (omega arith)
  solve_loop-finds (suc f) n k a b t h = elim (Bool-cases (test n)) [
    | inl e ↦ (itoa n, rw e)
    | inr e ↦
        let ahead : n < k = ground (arith, ap test) in
        rw (e, h n ahead) (solve_loop-finds f (suc n) k (omega arith) (omega arith) t h)
  ]

is_past_lem :
    (deadline : Option (ℕ → Bool)) (n : ℕ)
    → is_past deadline n ≡ true
    → (after : ℕ → Bool) × (n % 65536 ≡ 65535) × (deadline ≡ some after) × (after n ≡ true)
unfolding is_past
is_past_lem none n h = cc
is_past_lem (some after) n h = (after, ground arith, refl, ground arith)

-- The zero bits of a nonce's digest, as the service counts them.
abbrev pub strength : Text → Text → Text → Text → ℕ
strength w key body s = zero_bits (pow_digest w key (sha256_hex body) s)

prefix-itoa :
    (w key body : Text) (s : Text)
    → pow_prefix w key body ++ s ≡ pow_input w key (sha256_hex body) s
unfolding pow_prefix pow_input
prefix-itoa w key body s = simp append_assoc

reaches_iff :
    (w key body : Text) (bits : ℤ) (n : ℕ)
    → reaches (pow_prefix w key body) bits n ≡ not (ltb_ℤ (pos (strength w key body (itoa n))) bits)
unfolding reaches pow_digest
reaches_iff w key body bits n = rw (prefix-itoa w key body (itoa n))

module _ (fuel : ℕ) (w key body : Text) (bits : ℤ) (deadline : Option (ℕ → Bool)) where
  outcome :
      (r : Work)
      → solve_until fuel w key body bits deadline ≡ ok r
      → Outcome (reaches (pow_prefix w key body) bits) deadline fuel 0 r
  unfolding solve_until
  outcome r h =
      let all = solve_loop-Outcome (reaches (pow_prefix w key body) bits) deadline fuel 0 in
      let e : solve_loop (reaches (pow_prefix w key body) bits) deadline fuel 0 ≡ r =
        ground arith in
      rw e at all

  -- A nonce is the decimal of some m; its digest has the bits asked for, and that of no smaller
  -- number has them. Work that ran out stopped at an m whose low 16 bits are ones, with a deadline
  -- that the clock was past, and no number up to m had the bits.
  abbrev pub Ends : Work → Type 0
  Ends (nonce s) =
      (m : ℕ) × (s ≡ itoa m)
      × (bits ≤ℤ pos (strength w key body s))
      × ((j : ℕ) → j < m → pos (strength w key body (itoa j)) <ℤ bits)
  Ends ran_out =
      (m : ℕ) × (after : ℕ → Bool) × (m % 65536 ≡ 65535)
      × (deadline ≡ some after)
      × (after m ≡ true)
      × ((j : ℕ) → j ≤ m → pos (strength w key body (itoa j)) <ℤ bits)
  Ends no_fuel = (j : ℕ) → j < fuel → pos (strength w key body (itoa j)) <ℤ bits

  -- However the search ends, with a nonce, out of time or out of fuel, it has tried the decimals of
  -- 0, 1, 2 and so on: a nonce given is the first whose digest has the bits asked for, work that
  -- ran out stopped at a 65536th attempt past the deadline, and every number tried before lacked
  -- the bits.
  pub solve_until-Ends : (r : Work) → solve_until fuel w key body bits deadline ≡ ok r → Ends r
  solve_until-Ends (nonce s) h =
      let (m, a, e, t, fails) = outcome (nonce s) h in
      (
        m,
        e,
        rw e (ground (arith, reaches_iff w key body bits m)),
        λ j b. ground (arith, reaches_iff w key body bits j, fails j),
      )
  solve_until-Ends ran_out h =
      let (m, a, p, fails) = outcome ran_out h in
      let (after, low, set, late) = is_past_lem deadline m p in
      (m, after, low, set, late, λ j b. ground (arith, reaches_iff w key body bits j, fails j))
  solve_until-Ends no_fuel h =
      let fails = outcome no_fuel h in λ j b. ground (arith, reaches_iff w key body bits j, fails j)

  -- For 0 to 32 bits the search ends with a nonce, whatever the digests of smaller numbers, if the
  -- digest of some k below the fuel has the bits and the deadline does not stop it before k.
  pub solve_until_finds :
      (k : ℕ)
      → pos 0 ≤ℤ bits
      → bits ≤ℤ pos require_max_bits
      → bits ≤ℤ pos (strength w key body (itoa k))
      → k < fuel
      → ((j : ℕ) → j < k → is_past deadline j ≡ false)
      → (s : Text) × (solve_until fuel w key body bits deadline ≡ ok (nonce s))
  unfolding solve_until
  solve_until_finds k lo hi enough room free =
      let (s, e) =
        solve_loop-finds (reaches (pow_prefix w key body) bits) deadline fuel 0 k (omega arith)
          (omega arith) (ground (arith, reaches_iff w key body bits k)) free in
      (s, ground arith)
