-- ===== src/Client/Message/Tests.antt =====
-- The theorems of Message at a signed and at a forged message.
use aamio_go.Prelude.{
  ◌≡◌, ◌↔◌, ◌⊎◌, refl, true, [], none, some, Text, codes, text_eq, if◌then◌else◌,
}
use aamio_go.Errors.{ok}
use aamio_go.Json.{Fields, end, field, bool, number, string, get, put, integer}
use aamio_go.Codec.{b64url, unb64url, trim_pad, is_key, is_url_char, sha256_hex}
use aamio_go.Codec.Base64
use aamio_go.Codec.Base64.{has_std_char}
use aamio_go.Codec.Hex
use aamio_go.Codec.Sha256.{sum256}
use aamio_go.Json.Number.{parse_int}
use aamio_go.Toy.{toy, toy_sign, toy_public, toy_verify}
use aamio_go.Keys.{
  Keys, thread_signing_input, signing_input, verify, open_sealed, open_envelope, curve_public,
  envelope_to,
}
use aamio_go.Client.Message.{
  sealed, text_at, check_message, check_signature, decode_sealed, service_fields, decode,
  checked_fields, decode_checked, decode_at,
}
use aamio_go.Client.Message.Checks.{IsAuthentic, IsUnsigned, why_not_iff}
use aamio_go.Client.Message.Decoding.{HasStamps, decode_at-verified, decode_at-opened}

abbrev pub address : Text
address = codes "ohcibx4t22xc6hx22fch"

abbrev pub body : Text
body = codes "hi"

abbrev pub key : Text
key = toy_public (codes "seed")

-- What the service returns for a message, with a signature or something else in its place.
abbrev pub message : Text → Fields
message signature =
    let sealing = field (codes "sealed") (bool true) end in
    let claim = field (codes "verified") (bool true) sealing in
    let sig = field (codes "sig") (string signature) claim in
    let from = field (codes "from") (string (b64url key)) sig in
    let hash = field (codes "sha256") (string (sha256_hex body)) from in
    let text = field (codes "body") (string body) hash in
    let at = field (codes "at") (number (codes "1789201272")) text in
    field (codes "seq") (number (codes "1")) at

abbrev pub signed : Fields
signed = message (b64url (toy_sign key (thread_signing_input address body)))

abbrev pub forged : Fields
forged = message (codes "forged")

why_not_iff_example :
    ((check_message toy address forged).why_not ≡ none)
    ↔ (((check_message toy address forged).verified ≡ true) ⊎ IsUnsigned toy address forged)
why_not_iff_example = why_not_iff toy address forged

decode_at-verified_example :
    let m = decode_at toy none address forged in
    ((m.verified ≡ true) ↔ (HasStamps toy none address forged × IsAuthentic toy address forged))
    × (m.from ≡ (if m.verified then text_at (codes "from") forged else []))
    × (m.body ≡ text_at (codes "body") forged)
decode_at-verified_example = decode_at-verified toy none address forged

-- The reader to whom every envelope is sealed.
abbrev pub reader : Keys
reader = record {
  seed = [];
  curve_secret = [];
  public = [];
  hash = [];
  hash_prefix = codes "56475aa7";
}

opens : (decode_at toy (some reader) address signed).format ≡ sealed
unfolding decode_at decode_checked decode checked_fields check_message check_signature decode_sealed
    service_fields verify open_sealed open_envelope curve_public envelope_to get put integer
    parse_int text_eq unb64url trim_pad has_std_char Base64.decode is_key is_url_char b64url
    Base64.encode_url Base64.encode sha256_hex Hex.encode toy_sign toy_public toy_verify sum256
    thread_signing_input signing_input
opens = refl

decode_at-opened_example :
    let m = decode_at toy (some reader) address signed in
    IsAuthentic toy address signed
    × ((k : Keys) × (some reader ≡ some k)
        × (open_sealed toy k (text_at (codes "from") signed) m.body ≡ ok m.opened))
decode_at-opened_example = decode_at-opened toy (some reader) address signed opens
