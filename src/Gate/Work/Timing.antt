-- ===== src/Gate/Work/Timing.antt =====
-- How long work takes, of gate.go: HashRate, ExpectedSeconds and DescribeSeconds. A float64 is a
-- value of a type that the arithmetic of the language is taken over.
use aamio_go.Prelude.{
  ℕ, zero, suc, ◌+◌, ◌*◌, ◌^◌, ◌≤◌, ◌<◌, ℤ, pos, ltb, Bool, ◌++◌, Option, none, some, Text, codes,
  itoa_ℤ, if◌then◌else◌, ◌≡◌, ◌∙◌, refl, ap, subst, arith,
}

-- float64 with math.Pow, math.Round and math.Max, conversions of integers, and `%.1f` of fmt.
pub record Floats : Type 1 where
  pub F : Type 0
  pub of_int : ℤ → F
  pub pow : F → F → F
  pub divide : F → F → F
  pub round : F → F
  pub max : F → F → F
  pub is_less : F → F → Bool
  pub to_int : F → ℤ
  pub one_decimal : F → Text

abbrev pub batch : ℕ
batch = 4096

-- A quarter of a second, in nanoseconds.
abbrev pub quarter : ℕ
quarter = 250 * 10 ^ 6

-- The loop of HashRate: while the time since the start, at its next reading, is below a quarter of
-- a second, a batch of attempts, whose digests are thrown away. It gives the number of attempts and
-- of the next reading.
unfoldable pub count_batches : ℕ → (ℕ → ℕ) → ℕ → ℕ → Option (ℕ × ℕ)
count_batches zero since k count = none
count_batches (suc fuel) since k count =
    let rest = count_batches fuel since (suc k) (count + batch) in
    if ltb (since k) quarter then rest else some (count, suc k)

module _ (fl : Floats) where
  -- The attempts over the seconds that have passed at one more reading.
  abbrev pub rate_of : (ℕ → ℕ) → Option (ℕ × ℕ) → Option fl.F
  rate_of since none = none
  rate_of since (some (count, k)) = some (
      fl.divide (fl.of_int (pos count))
        (fl.divide (fl.of_int (pos (since k))) (fl.of_int (pos (10 ^ 9)))))

  -- HashRate, with the rate that was measured before, if any.
  unfoldable pub hash_rate : ℕ → (ℕ → ℕ) → Option fl.F → Option fl.F
  unfolding count_batches
  hash_rate fuel since (some rate) = some rate
  hash_rate fuel since none = rate_of since (count_batches fuel since 0 0)

  unfoldable pub expected_seconds : fl.F → ℤ → fl.F
  expected_seconds rate bits = fl.divide (fl.pow (fl.of_int (pos 2)) (fl.of_int bits)) rate

  unfoldable pub describe_seconds : fl.F → Text
  describe_seconds s =
      if fl.is_less s (fl.of_int (pos 90))
      then itoa_ℤ (fl.to_int (fl.max (fl.of_int (pos 1)) (fl.round s))) ++ codes " seconds"
      else if fl.is_less s (fl.of_int (pos 5400))
      then itoa_ℤ (fl.to_int (fl.round (fl.divide s (fl.of_int (pos 60))))) ++ codes " minutes"
      else fl.one_decimal (fl.divide s (fl.of_int (pos 3600))) ++ codes " hours"

next_reading : (k i : ℕ) → k + suc i ≡ suc k + i
next_reading k i = omega arith

this_reading : (k : ℕ) → k + 0 ≡ k
this_reading k = omega arith

one_more : (count b : ℕ) → count + batch + b * batch ≡ count + suc b * batch
one_more count b = omega arith

from_start : (i : ℕ) → 0 + i ≡ i
from_start i = omega arith

module _ (since : ℕ → ℕ) where
  -- The loop makes a batch for each reading before the first that is a quarter of a second or more.
  pub count_batches_lem :
      (b fuel k count : ℕ)
      → ((i : ℕ) → i < b → since (k + i) < quarter)
      → quarter ≤ since (k + b)
      → b < fuel
      → count_batches fuel since k count ≡ some (count + b * batch, suc (k + b))
  unfolding count_batches
  count_batches_lem b zero k count before at h = absurd (omega arith)
  count_batches_lem zero (suc fuel) k count before at h =
      let now : quarter ≤ since k = subst (λ n. quarter ≤ since n) (this_reading k) at in
      rw (this_reading k) (ground arith)
  count_batches_lem (suc b) (suc fuel) k count before at h =
      let first : since k < quarter =
        subst (λ n. since n < quarter) (this_reading k) (before 0 (omega arith)) in
      let rest =
        count_batches_lem b fuel (suc k) (count + batch)
          (λ i e. subst (λ n. since n < quarter) (next_reading k i) (before (suc i) (omega arith)))
          (subst (λ n. quarter ≤ since n) (next_reading k b) at) (omega arith) in
      rw (next_reading k b, ← one_more count b, ← rest) (ground arith)

-- HashRate measures once: with the first reading of a quarter of a second or more after b batches,
-- the rate is 4096 b attempts over the time of the reading after that, for any fuel above b, and a
-- rate that was measured is given again.
pub hash_rate_lem :
    (fl : Floats) (since : ℕ → ℕ) (b fuel : ℕ)
    → ((i : ℕ) → i < b → since i < quarter)
    → quarter ≤ since b
    → b < fuel
    → let rate = rate_of fl since (some (b * batch, suc b)) in
      (hash_rate fl fuel since none ≡ rate) × (hash_rate fl fuel since rate ≡ rate)
unfolding hash_rate
hash_rate_lem fl since b fuel before at h = (
  ap (rate_of fl since) {y = some (b * batch, suc b)} (
      count_batches_lem since b fuel 0 0 (λ i e. rw (from_start i) (before i e))
        (rw (from_start b) at) h
      ∙ rw (from_start b, from_start (b * batch)) refl),
  refl,
)
