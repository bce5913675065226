-- ===== src/Keys/Sealing.antt =====
-- Sealing: what one client seals, the other opens.
use aamio_go.Prelude.{
  ℕ, zero, suc, ◌≡◌, refl, true, ◌||◌, Bool, [], ◌∷◌, some, Text, IsBytes, length, take, all, arith,
  ◌==◌, text_eq, text_eq_refl,
}
use aamio_go.Errors.{ok}
use aamio_go.Codec.{is_url_char, b64url, unb64url, sha256_hex}
use aamio_go.Codec.Hex
use aamio_go.Codec.Hex.{is_hex_char}
use aamio_go.Codec.Sha256.{sum256-IsBytes}
use aamio_go.Codec.Base64.{url, encode_url}
use aamio_go.Codec.Base64.RoundTrip.{sextets, encode-map, sextets-bound}
use aamio_go.Codec.Padding.{unb64url-b64url}
use aamio_go.External.{External, Envelope, SignsWell}
use aamio_go.Keys.{
  Keys, curve_secret_of, from_seed, envelope_name, curve_public, hash_prefix_of, seal,
  open_envelope, open_sealed, envelope_to,
}
use aamio_go.Keys.Signing.{b64url-is_key, map-url, from_seed-fields}

-- The characters of an envelope's fields, none of which JSON escapes.
abbrev pub is_wire_char : ℕ → Bool
is_wire_char c = is_url_char c || c == b'.'

abbrev pub IsWire : Envelope → Type 0
IsWire e =
    (all is_wire_char e.e2ee ≡ true)
    × (all is_wire_char e.to ≡ true)
    × (all is_wire_char e.nonce ≡ true)
    × (all is_wire_char e.ct ≡ true)

-- What the libraries document: JSON gives back such an envelope; a public key is a point; a box is
-- bytes; and a box between the converted keys of two identities opens on the other side.
pub record SealsWell (x : External) : Type 0 where
  pub decode-encode : (e : Envelope) → IsWire e → x.decode_envelope (x.encode_envelope e) ≡ some e
  pub recipient-encode :
      (e : Envelope) → IsWire e → x.decode_recipient (x.encode_envelope e) ≡ some (e.e2ee, e.to)
  pub montgomery-public :
      (seed : Text) → length seed ≡ 32 → (p : Text) × (x.montgomery (x.public_of seed) ≡ some p)
  pub seal-IsBytes :
      (plain nonce peer secret : Text)
      → IsBytes plain
      → IsBytes (x.box_seal plain nonce peer secret)
  pub open-seal :
      (a b plain nonce pa pb : Text)
      → length a ≡ 32
      → length b ≡ 32
      → length nonce ≡ 24
      → x.montgomery (x.public_of a) ≡ some pa
      → x.montgomery (x.public_of b) ≡ some pb
      → x.box_open (x.box_seal plain nonce pb (curve_secret_of x a)) nonce pa (curve_secret_of x b)
        ≡ some plain

wire_of_url : (s : Text) → all is_url_char s ≡ true → all is_wire_char s ≡ true
wire_of_url [] h = refl
wire_of_url (c ∷ s) h = ground (arith, wire_of_url s)

b64url-wire : (s : Text) → IsBytes s → all is_wire_char (b64url s) ≡ true
unfolding b64url encode_url
b64url-wire s h = wire_of_url _ (rw (encode-map url s) (map-url (sextets s) (sextets-bound s h)))

url_of_hex : (c : ℕ) → is_hex_char c ≡ true → is_url_char c ≡ true
unfolding is_hex_char is_url_char
url_of_hex c h = ground arith

hex_wire : (n : ℕ) (s : Text) → all is_hex_char s ≡ true → all is_wire_char (take n s) ≡ true
hex_wire zero s h = refl
hex_wire (suc n) [] h = refl
hex_wire (suc n) (c ∷ s) h = ground (arith, url_of_hex c, hex_wire n s)

module _ (x : External) (signs : SignsWell x) (seals : SealsWell x) where
  abbrev key_of : Text → Text
  key_of seed = b64url (x.public_of seed)

  unb64url-key : (seed : Text) → length seed ≡ 32 → unb64url (key_of seed) ≡ some (x.public_of seed)
  unb64url-key seed n = unb64url-b64url (x.public_of seed) (signs.public-IsBytes seed n)

  curve_public-key :
      (seed p : Text)
      → length seed ≡ 32
      → x.montgomery (x.public_of seed) ≡ some p
      → curve_public x (key_of seed) ≡ ok p
  unfolding curve_public
  curve_public-key seed p n h =
      rw
        (
          b64url-is_key (x.public_of seed) (signs.length-public seed n)
              (signs.public-IsBytes seed n),
          unb64url-key seed n,
          h,
        )
        refl

  hash_prefix_of-key :
      (seed : Text)
      → length seed ≡ 32
      → hash_prefix_of (key_of seed) ≡ ok (take 8 (sha256_hex (x.public_of seed)))
  unfolding hash_prefix_of
  hash_prefix_of-key seed n = rw (unb64url-key seed n, hash_prefix_of)

  module _ (a b plain nonce pa pb : Text) (na : length a ≡ 32) (nb : length b ≡ 32)
      (nn : length nonce ≡ 24) (plain_bytes : IsBytes plain) (nonce_bytes : IsBytes nonce)
      (ha : x.montgomery (x.public_of a) ≡ some pa)
      (hb : x.montgomery (x.public_of b) ≡ some pb) where
    abbrev box : Text
    box = x.box_seal plain nonce pb (curve_secret_of x a)

    abbrev envelope : Envelope
    envelope = record {
      e2ee = envelope_name;
      to = take 8 (sha256_hex (x.public_of b));
      nonce = b64url nonce;
      ct = b64url box;
    }

    box-IsBytes : IsBytes box
    box-IsBytes = seals.seal-IsBytes plain nonce pb (curve_secret_of x a) plain_bytes

    envelope-IsWire : IsWire envelope
    unfolding is_url_char sha256_hex
    envelope-IsWire = (
      refl,
      hex_wire 8 _ (Hex.encode-IsHex _ (sum256-IsBytes (x.public_of b))),
      b64url-wire nonce nonce_bytes,
      b64url-wire box box-IsBytes,
    )

    module _ (k m : Keys) (made_a : from_seed x a ≡ ok k) (made_b : from_seed x b ≡ ok m) where
      seal_lem : seal x k m.public plain nonce ≡ ok (x.encode_envelope envelope)
      unfolding seal
      seal_lem =
          let (_, _, _, secret, _) = from_seed-fields x a k made_a in
          let (_, _, public, _, _) = from_seed-fields x b m made_b in
          rw (public, secret, curve_public-key b pb nb hb, hash_prefix_of-key b nb) refl

      open_envelope_lem : open_envelope x m k.public envelope ≡ ok plain
      unfolding open_envelope text_eq
      open_envelope_lem =
          let (_, _, public, _, _) = from_seed-fields x a k made_a in
          let (_, _, _, secret, prefix) = from_seed-fields x b m made_b in
          rw
            (
              public,
              prefix,
              text_eq_refl (take 8 (sha256_hex (x.public_of b))),
              curve_public-key a pa na ha,
              unb64url-b64url nonce nonce_bytes,
              unb64url-b64url box box-IsBytes,
              nn,
              secret,
              seals.open-seal a b plain nonce pa pb na nb nn ha hb,
            )
            refl

      open_sealed_lem : open_sealed x m k.public (x.encode_envelope envelope) ≡ ok plain
      unfolding open_sealed
      open_sealed_lem = rw (seals.decode-encode envelope envelope-IsWire) open_envelope_lem

      envelope_to_lem : envelope_to x (x.encode_envelope envelope) ≡ m.hash_prefix
      unfolding envelope_to
      envelope_to_lem =
          let (_, _, _, _, prefix) = from_seed-fields x b m made_b in
          rw (prefix) (rw (seals.recipient-encode envelope envelope-IsWire, envelope_to) refl)

-- What one identity seals to the public key of another, the other opens with the public key of the
-- first, and has the text back: for ed25519, JSON and the box as documented, keys made from seeds
-- and any nonce of 24 bytes.
pub open_sealed-seal :
    (x : External) (a b plain nonce : Text) (k m : Keys)
    → SignsWell x
    → SealsWell x
    → from_seed x a ≡ ok k
    → from_seed x b ≡ ok m
    → length nonce ≡ 24
    → IsBytes plain
    → IsBytes nonce
    → (sealed : Text) × (seal x k m.public plain nonce ≡ ok sealed)
      × (open_sealed x m k.public sealed ≡ ok plain)
open_sealed-seal x a b plain nonce k m signs seals made_a made_b nn hp hn =
    let na = (from_seed-fields x a k made_a).0 in
    let nb = (from_seed-fields x b m made_b).0 in
    let (pa, ea) = seals.montgomery-public a na in
    let (pb, eb) = seals.montgomery-public b nb in
    (
      x.encode_envelope (envelope x signs seals a b plain nonce pa pb na nb nn hp hn ea eb),
      seal_lem x signs seals a b plain nonce pa pb na nb nn hp hn ea eb k m made_a made_b,
      open_sealed_lem x signs seals a b plain nonce pa pb na nb nn hp hn ea eb k m made_a made_b,
    )

-- Such an envelope names the other by its hash prefix.
pub envelope_to-seal :
    (x : External) (a b plain nonce : Text) (k m : Keys) (sealed : Text)
    → SignsWell x
    → SealsWell x
    → from_seed x a ≡ ok k
    → from_seed x b ≡ ok m
    → length nonce ≡ 24
    → IsBytes plain
    → IsBytes nonce
    → seal x k m.public plain nonce ≡ ok sealed
    → (envelope_to x sealed ≡ m.hash_prefix) × (open_sealed x m k.public sealed ≡ ok plain)
envelope_to-seal x a b plain nonce k m sealed signs seals made_a made_b nn hp hn h =
    let na = (from_seed-fields x a k made_a).0 in
    let nb = (from_seed-fields x b m made_b).0 in
    let (pa, ea) = seals.montgomery-public a na in
    let (pb, eb) = seals.montgomery-public b nb in
    let e = envelope x signs seals a b plain nonce pa pb na nb nn hp hn ea eb in
    let made =
      seal_lem x signs seals a b plain nonce pa pb na nb nn hp hn ea eb k m made_a made_b in
    let same : x.encode_envelope e ≡ sealed = cc in
    (
      rw (← same) (
          envelope_to_lem x signs seals a b plain nonce pa pb na nb nn hp hn ea eb k m made_a
            made_b),
      rw (← same) (
          open_sealed_lem x signs seals a b plain nonce pa pb na nb nn hp hn ea eb k m made_a
            made_b),
    )
