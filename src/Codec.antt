-- ===== src/Codec.antt =====
-- codec.go: base64url, base32, sha256 in hex, and the shape of a key.
pub mod Base64
pub mod Base32
pub mod Hex
pub mod Sha256
pub mod Utf8
pub mod Padding
mod Tests
use aamio_go.Prelude.{
  ℕ, Bool, true, false, ◌&&◌, ◌||◌, List, [], ◌∷◌, Option, Text, leb, ◌==◌, if◌then◌else◌, all,
  length,
}
use Base64.{url, std, decode, encode_url, has_std_char}
use Hex.{encode}
use Sha256.{sum256}

-- keyPattern's class, [A-Za-z0-9_-].
unfoldable pub is_url_char : ℕ → Bool
is_url_char c =
    (leb b'A' c && leb c b'Z')
    || (leb b'a' c && leb c b'z')
    || (leb b'0' c && leb c b'9')
    || c == b'_'
    || c == b'-'

unfoldable pub is_key : Text → Bool
is_key s = length s == 43 && all is_url_char s

unfoldable pub b64url : Text → Text
b64url b = encode_url b

-- strings.TrimRight(s, "="): the last run of '=' goes.
abbrev trim_cons : ℕ → Text → Text
trim_cons c [] = if c == b'=' then [] else c ∷ []
trim_cons c (d ∷ t) = c ∷ d ∷ t

unfoldable pub trim_pad : Text → Text
trim_pad [] = []
trim_pad (c ∷ s) = trim_cons c (trim_pad s)

unfoldable pub unb64url : Text → Option Text
unfolding trim_pad
unb64url s = let t = trim_pad s in if has_std_char t then decode std t else decode url t

unfoldable pub sha256_hex : Text → Text
sha256_hex b = encode (sum256 b)
