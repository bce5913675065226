-- ===== src/Address/Tests.antt =====
-- The address of a read key, and the shape of a scope key, at concrete texts.
use aamio_go.Prelude.{◌≡◌, refl, codes, true, Text}
use aamio_go.Errors.{ok}
use aamio_go.Codec.Base32.{base32}
use aamio_go.Codec.Sha256.{sum256}
use aamio_go.Address.{is_id_char, is_scope_key, w}

w_vector : w (codes "abcdefghijklmnopqrstuvwxyz") ≡ ok (codes "ohcibx4t22xc6hx22fch")
unfolding w is_id_char base32 sum256
w_vector = refl

abbrev scope_key : Text
scope_key = codes "abcdefghijklmnopqrstuvwxyz"

scope_key_lem : is_scope_key scope_key ≡ true
unfolding is_scope_key is_id_char
scope_key_lem = refl
