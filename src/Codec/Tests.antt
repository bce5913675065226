-- ===== src/Codec/Tests.antt =====
-- The vectors of testdata/vectors.json, and the theorems of Codec at concrete inputs.
use aamio_go.Prelude.{◌≡◌, refl, [], ◌∷◌, ◌++◌, some, codes, arith}
use aamio_go.Codec.{sha256_hex, unb64url}
use aamio_go.Codec.Base64.{std, encode}
use aamio_go.Codec.Hex
use aamio_go.Codec.Sha256.{sum256}
use aamio_go.Codec.Padding.{pads, unb64url-encode}

sha256_abc :
    sha256_hex (codes "abc")
    ≡ codes "ba7816bf8f01cfea414140de5dae2223b00361a396177a9cb410ff61f20015ad"
unfolding sha256_hex sum256 Hex.encode
sha256_abc = refl

unb64url-encode_example : unb64url (encode std (251 ∷ 255 ∷ []) ++ pads 1) ≡ some (251 ∷ 255 ∷ [])
unb64url-encode_example = unb64url-encode std (251 ∷ 255 ∷ []) 1 (omega arith)
