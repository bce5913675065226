-- ===== src/Gate/Work.antt =====
-- The proof of work of gate.go: what is hashed, how zero bits are counted, and the search.
pub mod Bits
pub mod Search
pub mod Inputs
pub mod Nonce
pub mod Timing
mod Tests
use aamio_go.Prelude.{
  ℕ, zero, suc, ◌+◌, ◌/◌, ◌%◌, ◌^◌, ℤ, pos, negsuc, ltb_ℤ, Bool, true, false, ◌&&◌, ◌||◌, [], ◌∷◌,
  ◌++◌, Option, none, some, Text, codes, itoa, not, ◌==◌, if◌then◌else◌,
}
use aamio_go.Errors.{Result, ok, err, work_bits}
use aamio_go.Codec.{sha256_hex}
use aamio_go.Codec.Sha256.{sum256}

abbrev pub require_max_bits : ℕ
require_max_bits = 32

abbrev pub newline : ℕ
newline = b'\n'

abbrev pub pow_name : Text
pow_name = codes "aamio-pow-v1"

abbrev pub board_pow_name : Text
board_pow_name = codes "aamio-board-pow-v1"

unfoldable pub pow_input : Text → Text → Text → Text → Text
pow_input w key body_sha256 nonce =
    pow_name ++ newline ∷ (w ++ newline ∷ (key ++ newline ∷ (body_sha256 ++ newline ∷ nonce)))

unfoldable pub pow_digest : Text → Text → Text → Text → Text
pow_digest w key body_sha256 nonce = sum256 (pow_input w key body_sha256 nonce)

unfoldable pub board_pow_input : Text → Text → Text → Text
board_pow_input key body_sha256 nonce =
    board_pow_name ++ newline ∷ (key ++ newline ∷ (body_sha256 ++ newline ∷ nonce))

unfoldable pub board_pow_digest : Text → Text → Text → Text
board_pow_digest key body_sha256 nonce = sum256 (board_pow_input key body_sha256 nonce)

-- The loop over the mask: bit k - 1 and then those below it.
unfoldable pub top_zeros : ℕ → ℕ → ℕ
top_zeros zero b = 0
top_zeros (suc k) b = if b / 2 ^ k % 2 == 0 then 1 + top_zeros k b else 0

unfoldable pub zero_bits : Text → ℕ
zero_bits [] = 0
zero_bits (b ∷ d) = if b == 0 then 8 + zero_bits d else top_zeros 8 b

-- `ok` of SolveUntil and the nonce; `no_fuel` is a search that has not come to an end.
pub data Work : Type 0 where
  nonce : Text → Work
  ran_out : Work
  no_fuel : Work

-- A deadline says at each attempt whether the clock is past it. The clock is read at every
-- 65536th attempt.
unfoldable pub is_past : Option (ℕ → Bool) → ℕ → Bool
is_past none n = false
is_past (some after) n = n % 65536 == 65535 && after n

-- `for n := 0; ; n++`, over the test of a nonce.
unfoldable pub solve_loop : (ℕ → Bool) → Option (ℕ → Bool) → ℕ → ℕ → Work
solve_loop reaches deadline zero n = no_fuel
solve_loop reaches deadline (suc f) n =
    let rest = solve_loop reaches deadline f (suc n) in
    if reaches n then nonce (itoa n) else if is_past deadline n then ran_out else rest

abbrev out_of_range : ℤ → Bool
out_of_range bits = ltb_ℤ bits (pos 0) || ltb_ℤ (pos require_max_bits) bits

-- The test of the loop: the prefix is made once, and the decimal n hung on to it.
unfoldable pub reaches : Text → ℤ → ℕ → Bool
reaches prefix bits n = not (ltb_ℤ (pos (zero_bits (sum256 (prefix ++ itoa n)))) bits)

unfoldable pub pow_prefix : Text → Text → Text → Text
pow_prefix w key body =
    pow_name ++ newline ∷ (w ++ newline ∷ (key ++ newline ∷ (sha256_hex body ++ newline ∷ [])))

unfoldable pub solve_until : ℕ → Text → Text → Text → ℤ → Option (ℕ → Bool) → Result Work
unfolding solve_loop
solve_until fuel w key body bits deadline =
    if out_of_range bits
    then err work_bits
    else ok (solve_loop (reaches (pow_prefix w key body) bits) deadline fuel 0)

unfoldable pub solve : ℕ → Text → Text → Text → ℤ → Result Work
unfolding solve_until
solve fuel w key body bits = solve_until fuel w key body bits none

unfoldable pub board_prefix : Text → Text → Text
board_prefix key body =
    board_pow_name ++ newline ∷ (key ++ newline ∷ (sha256_hex body ++ newline ∷ []))

unfoldable pub solve_board : ℕ → Text → Text → ℤ → Result Work
unfolding solve_loop
solve_board fuel key body bits =
    if out_of_range bits
    then err work_bits
    else ok (solve_loop (reaches (board_prefix key body) bits) none fuel 0)
