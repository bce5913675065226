-- ===== src/Keys/Signing.antt =====
-- Signatures: what is signed determines its parts, and what a client signs verifies.
use aamio_go.Prelude.{
  ℕ, ◌<◌, ◌≡◌, refl, true, [], ◌∷◌, List, map, Text, IsBytes, All, length, take, length-map, all,
  arith,
}
use aamio_go.Errors.{ok}
use aamio_go.Codec.{is_key, is_url_char, b64url, sha256_hex}
use aamio_go.Codec.Base64.{url, char_of, encode_url}
use aamio_go.Codec.Base64.RoundTrip.{sextets, length-sextets, encode-map, sextets-bound}
use aamio_go.Codec.Padding.{unb64url-b64url}
use aamio_go.External.{External, SignsWell}
use aamio_go.Gate.Work.Inputs.{OneLine, split_line}
use aamio_go.Keys.{Keys, from_seed, sign, verify, signing_input, curve_secret_of}

char_of-url : (v : ℕ) → v < 64 → is_url_char (char_of url v) ≡ true
unfolding is_url_char char_of
char_of-url v h = ground arith

pub map-url : (vs : List ℕ) → All (λ v. v < 64) vs → all is_url_char (map (char_of url) vs) ≡ true
map-url [] h = refl
map-url (v ∷ vs) (hv, h) = ground (arith, char_of-url v hv, map-url vs h)

-- The base64url of 32 bytes has the shape of a key.
pub b64url-is_key : (s : Text) → length s ≡ 32 → IsBytes s → is_key (b64url s) ≡ true
unfolding b64url encode_url is_key
b64url-is_key s n h = rw (encode-map url s) (
    ground (
      arith,
      length-map (char_of url) (sextets s),
      length-sextets s,
      map-url (sextets s) (sextets-bound s h),
    ))

pub from_seed-fields :
    (x : External) (seed : Text) (k : Keys)
    → from_seed x seed ≡ ok k
    → (length seed ≡ 32)
      × (k.seed ≡ seed)
      × (k.public ≡ b64url (x.public_of seed))
      × (k.curve_secret ≡ curve_secret_of x seed)
      × (k.hash_prefix ≡ take 8 (sha256_hex (x.public_of seed)))
unfolding from_seed
from_seed-fields x seed k h = ground arith

-- For ed25519 as documented, a signature that a client makes verifies under its public key, over
-- the same text, through every encoding and shape test on the way.
pub verify-sign :
    (x : External) (seed input : Text) (k : Keys)
    → SignsWell x
    → from_seed x seed ≡ ok k
    → verify x k.public (sign x k input) input ≡ true
unfolding sign verify
verify-sign x seed input k s made =
    let (n, same_seed, same_public, _, _) = from_seed-fields x seed k made in
    let public = x.public_of seed in
    let signature = x.sign seed input in
    rw (same_seed, same_public)
      (ground (
        arith,
        b64url-is_key public (s.length-public seed n) (s.public-IsBytes seed n),
        unb64url-b64url public (s.public-IsBytes seed n),
        unb64url-b64url signature (s.sign-IsBytes seed input n),
        s.length-public seed n,
        s.length-sign seed input n,
        s.verify-sign seed input n,
      ))

-- A signature over one subject and body is over no other: for names, subjects of one line, equal
-- signing inputs have the same name, subject and hash of the body.
pub signing_input-injective :
    (name subject body name' subject' body' : Text)
    → OneLine name
    → OneLine name'
    → OneLine subject
    → OneLine subject'
    → signing_input name subject body ≡ signing_input name' subject' body'
    → (name ≡ name') × (subject ≡ subject') × (sha256_hex body ≡ sha256_hex body')
unfolding signing_input
signing_input-injective name subject body name' subject' body' a a' b b' h =
    let (en, rest) = split_line name name' _ _ a a' h in
    let (es, eh) = split_line subject subject' _ _ b b' rest in (en, es, eh)
