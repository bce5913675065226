-- ===== src/Toy.antt =====
-- A concrete `External` for the tests: a keyed hash in place of a signature, and no encryption. It
-- meets what is assumed of the real ones.
use aamio_go.Prelude.{
  Bool, [], ◌∷◌, ◌++◌, none, some, Text, IsBytes, length-append, text_eq, text_eq_refl, arith,
  codes,
}
use aamio_go.Codec.Sha256.{sum256, length-sum256, sum256-IsBytes}
use aamio_go.External.{External, Envelope, SignsWell}

unfoldable pub toy_sign : Text → Text → Text
toy_sign key message = sum256 (key ++ message) ++ sum256 (message ++ key)

unfoldable pub toy_public : Text → Text
toy_public seed = sum256 seed

unfoldable pub toy_verify : Text → Text → Text → Bool
toy_verify key message signature = text_eq (toy_sign key message) signature

-- Every text is an envelope to one reader, of the text "hi".
abbrev pub toy_envelope : Envelope
toy_envelope = record {
  e2ee = codes "nacl.box.v1";
  to = codes "56475aa7";
  nonce = codes "AAAAAAAAAAAAAAAAAAAAAAAAAAAAAAAA";
  ct = codes "aGk";
}

abbrev pub toy : External
toy = record {
  public_of = toy_public;
  sign = λ seed message. toy_sign (toy_public seed) message;
  ed25519_verify = toy_verify;
  sha512 = λ s. sum256 s ++ sum256 s;
  montgomery = λ key. some key;
  box_seal = λ plain nonce peer secret. plain;
  box_open = λ sealed nonce peer secret. some sealed;
  decode_object = λ s. none;
  decode_envelope = λ s. some toy_envelope;
  decode_recipient = λ s. some (toy_envelope.e2ee, toy_envelope.to);
  encode_envelope = λ e. e.ct;
  encode_object = λ m. some (codes "{}\n");
  decode_receipt = λ s. none;
  format_float = λ f. [];
}

IsBytes-append : (s t : Text) → IsBytes s → IsBytes t → IsBytes (s ++ t)
IsBytes-append [] t hs ht = ht
IsBytes-append (c ∷ s) t (hc, hs) ht = (hc, IsBytes-append s t hs ht)

pub toy-SignsWell : SignsWell toy
unfolding toy_sign toy_public toy_verify
toy-SignsWell = record {
  length-public = λ seed h. length-sum256 seed;
  public-IsBytes = λ seed h. sum256-IsBytes seed;
  length-sign = λ seed message h. omega (
    arith,
    length-append {0} (sum256 (sum256 seed ++ message)) (sum256 (message ++ sum256 seed)),
    length-sum256 (sum256 seed ++ message),
    length-sum256 (message ++ sum256 seed),
  );
  sign-IsBytes = λ seed message h.
      IsBytes-append _ _ (sum256-IsBytes (sum256 seed ++ message))
        (sum256-IsBytes (message ++ sum256 seed));
  verify-sign = λ seed message h. text_eq_refl _;
}
