-- ===== src/Codec/Padding.antt =====
-- `unb64url` on every spelling that the service accepts.
use aamio_go.Prelude.{
  ℕ, ◌<◌, ◌≡◌, ◌≢◌, refl, false, ◌||◌, [], ◌∷◌, ◌++◌, some, zero, suc, Text, IsBytes, ◌==◌,
  if◌then◌else◌, arith, All, Bool-cases, inl, inr, append-nil, map, List,
}
use aamio_go.Codec.Base64.{Alphabet, std, url, char_of, encode, decode, encode_url, has_std_char}
use aamio_go.Codec.Base64.RoundTrip.{decode-encode, sextets, encode-map, sextets-bound}
use aamio_go.Codec.{trim_pad, b64url, unb64url}

-- The padding of standard base64, or any other number of '='.
abbrev pub pads : ℕ → Text
pads zero = []
pads (suc n) = b'=' ∷ pads n

abbrev IsPlain : ℕ → Type 0
IsPlain c = c ≢ b'='

char_of-IsPlain : (a : Alphabet) (v : ℕ) → v < 64 → IsPlain (char_of a v)
unfolding char_of
char_of-IsPlain a v h = ground arith

map-IsPlain : (a : Alphabet) (vs : List ℕ) → All (λ v. v < 64) vs → All IsPlain (map (char_of a) vs)
map-IsPlain a [] h = tt
map-IsPlain a (v ∷ vs) (hv, h) = (char_of-IsPlain a v hv, map-IsPlain a vs h)

encode-IsPlain : (a : Alphabet) (s : Text) → IsBytes s → All IsPlain (encode a s)
encode-IsPlain a s h = rw (encode-map a s) (map-IsPlain a (sextets s) (sextets-bound s h))

-- The url alphabet has neither '+' nor '/'.
url_not_std : (v : ℕ) → v < 64 → (char_of url v == b'+' || char_of url v == b'/') ≡ false
unfolding char_of
url_not_std v h = ground arith

has_std_char-map :
    (vs : List ℕ) → All (λ v. v < 64) vs → has_std_char (map (char_of url) vs) ≡ false
unfolding has_std_char
has_std_char-map [] h = refl
has_std_char-map (v ∷ vs) (hv, h) = ground (arith, url_not_std v hv, has_std_char-map vs h)

has_std_char-url : (s : Text) → IsBytes s → has_std_char (encode url s) ≡ false
has_std_char-url s h = rw (encode-map url s) (has_std_char-map (sextets s) (sextets-bound s h))

-- A character outside the two that differ is the same in both alphabets.
std_as_url :
    (v : ℕ)
    → (char_of std v == b'+' || char_of std v == b'/') ≡ false
    → char_of std v ≡ char_of url v
unfolding char_of
std_as_url v h = ground arith

map-std-url :
    (vs : List ℕ)
    → has_std_char (map (char_of std) vs) ≡ false
    → map (char_of std) vs ≡ map (char_of url) vs
unfolding has_std_char
map-std-url [] h = refl
map-std-url (v ∷ vs) h = ground (arith, std_as_url v, map-std-url vs)

encode-std-url : (s : Text) → has_std_char (encode std s) ≡ false → encode std s ≡ encode url s
encode-std-url s h =
    rw (encode-map std s, encode-map url s) (map-std-url (sextets s) (rw (← encode-map std s) h))

trim-cons : (c : ℕ) (s t : Text) → c ≢ b'=' → trim_pad s ≡ t → trim_pad (c ∷ s) ≡ c ∷ t
unfolding trim_pad
trim-cons c s [] n e = rw e (ground arith)
trim-cons c s (d ∷ t) n e = rw e

trim-pads : (n : ℕ) → trim_pad (pads n) ≡ []
unfolding trim_pad
trim-pads zero = refl
trim-pads (suc n) = rw (trim-pads n)

trim-append-pads : (s : Text) (n : ℕ) → All (λ c. c ≢ b'=') s → trim_pad (s ++ pads n) ≡ s
trim-append-pads [] n h = trim-pads n
trim-append-pads (c ∷ s) n (hc, h) = trim-cons c _ s hc (trim-append-pads s n h)

-- What `unb64url` does with a text that carries no pad, and any number of pads behind it.
unb64url-pads :
    (s : Text) (n : ℕ)
    → All IsPlain s
    → unb64url (s ++ pads n) ≡ (if has_std_char s then decode std s else decode url s)
unfolding unb64url
unb64url-pads s n h = rw (trim-append-pads s n h)

-- For all bytes, `unb64url` gives back what either alphabet encodes, with any number of '=' behind
-- it: base64url and standard base64, padded and not.
pub unb64url-encode :
    (a : Alphabet) (s : Text) (n : ℕ) → IsBytes s → unb64url (encode a s ++ pads n) ≡ some s
unb64url-encode url s n h =
    rw (unb64url-pads _ n (encode-IsPlain url s h), has_std_char-url s h) (decode-encode url s h)
unb64url-encode std s n h = elim (Bool-cases (has_std_char (encode std s))) [
  | inl e ↦ rw (unb64url-pads _ n (encode-IsPlain std s h), e) (decode-encode std s h)
  | inr e ↦
      rw (unb64url-pads _ n (encode-IsPlain std s h), e, encode-std-url s e) (decode-encode url s h)
]

pub unb64url-b64url : (s : Text) → IsBytes s → unb64url (b64url s) ≡ some s
unfolding b64url encode_url
unb64url-b64url s h = rw (← append-nil (encode url s)) (unb64url-encode url s 0 h)
