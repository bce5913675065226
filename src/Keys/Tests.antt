-- ===== src/Keys/Tests.antt =====
-- The theorems of Keys at concrete inputs, over the stand-in for ed25519.
use aamio_go.Prelude.{
  ◌≡◌, refl, ap, ℕ, true, false, [], ◌∷◌, ◌++◌, Option, some, all, ◌==◌, if◌then◌else◌, Text, codes,
  arith,
}
use aamio_go.External.{External, Envelope, SignsWell}
use aamio_go.Json.{Fields}
use aamio_go.Gate.Work.{newline}
use aamio_go.Codec.{is_url_char}
use aamio_go.Keys.Sealing.{is_wire_char, IsWire, SealsWell}
use aamio_go.Errors.{ok}
use aamio_go.Codec.{sha256_hex}
use aamio_go.Toy.{toy, toy-SignsWell}
use aamio_go.Keys.{Keys, curve_secret_of, from_seed, thread_name}
use aamio_go.Keys.Signing.{signing_input-injective}

abbrev pub seed : Text
seed = codes "0123456789abcdef0123456789abcdef"

made : (k : Keys) × (from_seed toy seed ≡ ok k)
unfolding from_seed
made = (_, refl)

signing_input-injective_example :
    (thread_name ≡ thread_name)
    × (codes "w" ≡ codes "w")
    × (sha256_hex (codes "hi") ≡ sha256_hex (codes "hi"))
signing_input-injective_example =
    signing_input-injective thread_name (codes "w") (codes "hi") thread_name (codes "w")
      (codes "hi") (omega arith) (omega arith) (omega arith) (omega arith) refl

-- A stand-in whose envelopes are their four fields, a line each.
abbrev pub print : Envelope → Text
print e = e.e2ee ++ newline ∷ (e.to ++ newline ∷ (e.nonce ++ newline ∷ e.ct))

pub first_line : Text → Text
first_line [] = []
first_line (c ∷ s) = let rest = first_line s in if c == newline then [] else c ∷ rest

pub later_lines : Text → Text
later_lines [] = []
later_lines (c ∷ s) = let rest = later_lines s in if c == newline then s else rest

abbrev pub scan : Text → Envelope
scan s =
    let s1 = later_lines s in
    let s2 = later_lines s1 in
    record { e2ee = first_line s; to = first_line s1; nonce = first_line s2; ct = later_lines s2 }

wire_not_newline : (c : ℕ) → is_wire_char c ≡ true → (c == newline) ≡ false
unfolding is_url_char
wire_not_newline c h = ground arith

first_line-append : (s t : Text) → all is_wire_char s ≡ true → first_line (s ++ newline ∷ t) ≡ s
unfolding first_line
first_line-append [] t h = refl
first_line-append (c ∷ s) t h = ground (arith, wire_not_newline c, first_line-append s t)

later_lines-append : (s t : Text) → all is_wire_char s ≡ true → later_lines (s ++ newline ∷ t) ≡ t
unfolding later_lines
later_lines-append [] t h = refl
later_lines-append (c ∷ s) t h = ground (arith, wire_not_newline c, later_lines-append s t)

scan-print : (e : Envelope) → IsWire e → scan (print e) ≡ e
scan-print e (h1, h2, h3, h4) =
    rw
      (
        first_line-append e.e2ee _ h1,
        later_lines-append e.e2ee _ h1,
        first_line-append e.to _ h2,
        later_lines-append e.to _ h2,
        first_line-append e.nonce _ h3,
        later_lines-append e.nonce _ h3,
      )
      refl

-- A stand-in whose boxes are their text, with a decoder of maps.
abbrev pub reading : (Text → Option Fields) → External
reading decode = record toy {
  encode_envelope = print;
  decode_envelope = λ s. some (scan s);
  decode_recipient = λ s. some ((scan s).e2ee, (scan s).to);
  decode_object = decode;
}

pub reading-SignsWell : (decode : Text → Option Fields) → SignsWell (reading decode)
reading-SignsWell decode = record {
  length-public = toy-SignsWell.length-public;
  public-IsBytes = toy-SignsWell.public-IsBytes;
  length-sign = toy-SignsWell.length-sign;
  sign-IsBytes = toy-SignsWell.sign-IsBytes;
  verify-sign = toy-SignsWell.verify-sign;
}

pub reading-SealsWell : (decode : Text → Option Fields) → SealsWell (reading decode)
reading-SealsWell decode = record {
  decode-encode = λ e h. ap some (scan-print e h);
  recipient-encode = λ e h. ap (λ f. some (f.e2ee, f.to)) (scan-print e h);
  montgomery-public = λ seed n. (toy.public_of seed, refl);
  seal-IsBytes = λ plain nonce peer secret h. h;
  open-seal = λ a b plain nonce pa pb na nb nn ha hb. refl;
}

abbrev pub boxed : External
boxed = reading toy.decode_object

pub boxed-SignsWell : SignsWell boxed
boxed-SignsWell = reading-SignsWell toy.decode_object

pub boxed-SealsWell : SealsWell boxed
boxed-SealsWell = reading-SealsWell toy.decode_object

abbrev pub other_seed : Text
other_seed = codes "fedcba9876543210fedcba9876543210"

unfoldable pub made_first : (k : Keys) × (from_seed boxed seed ≡ ok k)
unfolding from_seed
made_first = (_, refl)

unfoldable pub made_other : (k : Keys) × (from_seed boxed other_seed ≡ ok k)
unfolding from_seed
made_other = (_, refl)

abbrev pub box_nonce : Text
box_nonce = codes "abcdefghijklmnopqrstuvwx"

-- The same keys, whatever the decoder of maps.
pub made_reading :
    (decode : Text → Option Fields)
    → (from_seed (reading decode) seed ≡ ok made_first.0)
      × (from_seed (reading decode) other_seed ≡ ok made_other.0)
unfolding from_seed made_first made_other curve_secret_of
made_reading decode = (refl, refl)
