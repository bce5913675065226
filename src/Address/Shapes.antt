-- ===== src/Address/Shapes.antt =====
-- What the makers of read keys and addresses give, and how the shapes exclude one another.

use aamio_go.Prelude.{
  ℕ, ◌*◌, All-get_or, All-of_all, zero, suc, ◌≤◌, ◌<◌, ◌≡◌, refl, true, false, [], ◌∷◌, ◌++◌,
  Option, some, Text, length, take, get_or, all, All, All-take, all_of_All, length-take, arith,
}
use aamio_go.Errors.{ok, err, id_length, id_shape, scope_key_shape}
use aamio_go.Codec.Base32.{base32, is_base32_char, base32-IsBase32, length-base32}
use aamio_go.Codec.Sha256.{sum256, length-sum256, sum256-IsBytes}
use aamio_go.Address.{
  id_alphabet, is_id_char, is_id, is_w, is_scope_key, draw_chars, new_id_length, w, scope_prefix,
  scope_address,
}

alphabet_lem : (v : ℕ) → v < 36 → is_id_char (get_or id_alphabet v 0) ≡ true
alphabet_lem v h =
    All-get_or (λ c. is_id_char c ≡ true) id_alphabet v 0
      (All-of_all is_id_char id_alphabet (unfold is_id_char in refl)) h

draw_chars-shape :
    (draw : ℕ → Option ℕ) (i n : ℕ)
    → ((j : ℕ) → (v : ℕ) × (draw j ≡ some v) × (v < 36))
    → (s : Text) × (draw_chars draw i n ≡ ok s) × (length s ≡ n) × (all is_id_char s ≡ true)
unfolding draw_chars
draw_chars-shape draw i zero h = ([], refl, refl, refl)
draw_chars-shape draw i (suc n) h =
    let (v, e, b) = h i in
    let (s, es, l, a) = draw_chars-shape draw (suc i) n h in
    (get_or id_alphabet v 0 ∷ s, ground arith, omega arith, ground (arith, alphabet_lem v b))

-- With a working random source a length of 20 to 64 gives a read key of that length, and any
-- other length is refused.
pub new_id_length-is_id :
    (draw : ℕ → Option ℕ) (n : ℕ)
    → ((j : ℕ) → (v : ℕ) × (draw j ≡ some v) × (v < 36))
    → ((20 ≤ n) × (n ≤ 64)
        → (s : Text) × (new_id_length draw n ≡ ok s) × (length s ≡ n) × (is_id s ≡ true))
      × (¬ ((20 ≤ n) × (n ≤ 64)) → new_id_length draw n ≡ err id_length)
unfolding new_id_length is_id
new_id_length-is_id draw n h = (
  λ r. let (s, e, l, a) = draw_chars-shape draw 0 n h in (s, ground arith, l, ground arith),
  λ r. ground arith,
)

address_of : Text → Text
address_of s = take 20 (base32 (sum256 s))

address_of-is_w : (s : Text) → is_w (address_of s) ≡ true
unfolding is_w address_of
address_of-is_w s =
    let long : 8 * length (sum256 s) ≤ 5 * length (base32 (sum256 s)) = length-base32 (sum256 s) in
    let chars : All (λ c. is_base32_char c ≡ true) (take 20 (base32 (sum256 s))) =
      All-take (λ c. is_base32_char c ≡ true) 20 _ (base32-IsBase32 _ (sum256-IsBytes s)) in
    ground (
      arith,
      all_of_All is_base32_char _ chars,
      length-take 20 (base32 (sum256 s)),
      length-sum256 s,
    )

-- Exactly the texts of 20 to 64 characters of a-z and 0-9 have a write address, and it has the
-- shape of one.
pub w-is_w :
    (id : Text)
    → (is_id id ≡ true → (a : Text) × (w id ≡ ok a) × (is_w a ≡ true))
      × (is_id id ≡ false → w id ≡ err id_shape)
unfolding w address_of
w-is_w id = (λ e. (address_of id, rw e, address_of-is_w id), λ e. rw e)

-- The address of a scope key has the shape of a write address; any other text is refused.
pub scope_address-is_w :
    (key : Text)
    → (is_scope_key key ≡ true → (a : Text) × (scope_address key ≡ ok a) × (is_w a ≡ true))
      × (is_scope_key key ≡ false → scope_address key ≡ err scope_key_shape)
unfolding scope_address address_of
scope_address-is_w key = (
  λ e. (address_of (scope_prefix ++ key), rw e, address_of-is_w (scope_prefix ++ key)),
  λ e. rw e,
)

not_id_prefix : (key : Text) → is_id (scope_prefix ++ key) ≡ false
unfolding is_id is_id_char
not_id_prefix key = ground arith

-- A scope key is a read key's shape and never an address's; and what is hashed for a scope is
-- never a text that has a thread's address.
scope_separate :
    (key : Text)
    → is_scope_key key ≡ true
    → (is_id key ≡ true) × (is_w key ≡ false) × (w (scope_prefix ++ key) ≡ err id_shape)
unfolding is_scope_key is_id is_w
scope_separate key h =
    (ground arith, ground arith, (w-is_w (scope_prefix ++ key)).1 (not_id_prefix key))
