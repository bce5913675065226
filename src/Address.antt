-- ===== src/Address.antt =====
-- address.go: read keys, write addresses and scopes.
pub mod Shapes
mod Tests
use aamio_go.Prelude.{
  ℕ, zero, suc, ◌-◌, Bool, ◌&&◌, ◌||◌, List, [], ◌∷◌, ◌++◌, Option, none, some, Text, codes, length,
  take, get_or, all, ltb, leb, ◌==◌, if◌then◌else◌,
}
use aamio_go.Errors.{Result, ok, err, id_length, id_shape, scope_key_shape, random_failed, ◌>>=◌}
use aamio_go.Codec.Base32.{base32, is_base32_char}
use aamio_go.Codec.Sha256.{sum256}

abbrev pub id_alphabet : Text
id_alphabet = codes "abcdefghijklmnopqrstuvwxyz0123456789"

-- The class [a-z0-9] of idPattern and scopeKeyPattern.
unfoldable pub is_id_char : ℕ → Bool
is_id_char c = (leb b'a' c && leb c b'z') || (leb b'0' c && leb c b'9')

unfoldable pub is_id : Text → Bool
is_id s = leb 20 (length s) && leb (length s) 64 && all is_id_char s

unfoldable pub is_w : Text → Bool
is_w s = length s == 20 && all is_base32_char s

unfoldable pub is_scope_key : Text → Bool
is_scope_key s = leb 26 (length s) && leb (length s) 64 && all is_id_char s

-- One draw of rand.Int below 36 for each character; `none` is a failed read.
unfoldable pub draw_chars : (ℕ → Option ℕ) → ℕ → ℕ → Result Text
draw_chars draw i zero = ok []
draw_chars draw i (suc n) = elim (draw i) [
  | none ↦ err random_failed
  | some v ↦ (do rest ← draw_chars draw (suc i) n; ok (get_or id_alphabet v 0 ∷ rest))
]

unfoldable pub new_id_length : (ℕ → Option ℕ) → ℕ → Result Text
unfolding draw_chars
new_id_length draw length =
    if ltb length 20 || ltb 64 length then err id_length else draw_chars draw 0 length

unfoldable pub new_id : (ℕ → Option ℕ) → Result Text
unfolding new_id_length
new_id draw = new_id_length draw 26

unfoldable pub new_scope_key : (ℕ → Option ℕ) → Result Text
unfolding new_id_length
new_scope_key draw = new_id_length draw 26

-- `Base32(sum[:])[:20]`: the digest is 32 bytes, so the slice is within its 52 characters.
unfoldable pub w : Text → Result Text
unfolding is_id
w id = if is_id id then ok (take 20 (base32 (sum256 id))) else err id_shape

abbrev pub scope_prefix : Text
scope_prefix = codes "aamio-scope-v1\n"

unfoldable pub scope_address : Text → Result Text
unfolding is_scope_key
scope_address key =
    if is_scope_key key
    then ok (take 20 (base32 (sum256 (scope_prefix ++ key))))
    else err scope_key_shape
