-- ===== src/Delivery/Replied/Tests.antt =====
-- An answer to a post that is read as a reply, over the stand-in whose decoder gives the map of it.
use mathlib.Core.List.{Permᴰ}
use aamio_go.Prelude.{
  ℕ, pos, true, List, Option, none, some, Text, codes, ◌≡◌, refl, inl, arith, text_eq,
}
use aamio_go.Errors.{ok}
use aamio_go.External.{External}
use aamio_go.Json.{Fields, get}
use aamio_go.Address.{is_w}
use aamio_go.Codec.{b64url, is_key, is_url_char, unb64url, sha256_hex}
use aamio_go.Codec.Base32.{is_base32_char}
use aamio_go.Codec.Base64
use aamio_go.Codec.Base64.{encode_url, has_std_char}
use aamio_go.Codec.Hex
use aamio_go.Codec.Sha256.{sum256}
use aamio_go.Toy.{toy_public}
use aamio_go.Keys.{seal, curve_public, hash_prefix_of}
use aamio_go.Keys.Tests.{
  boxed, reading, reading-SignsWell, reading-SealsWell, seed, other_seed, made_first, made_other,
  made_reading, box_nonce,
}
use aamio_go.Client.Allow.{normalize_allow}
use aamio_go.Client.Message.Tests.{address}
use aamio_go.Client.Read.{read_thread}
use aamio_go.Client.Requests.{json}
use aamio_go.Client.Requests.Tests.{draw}
use aamio_go.Client.Session.Letter.{Letter, letter_of, post_request}
use aamio_go.Client.Session.Tests.{world}
use aamio_go.Board.Post.{answer_fields, answer_options}
use aamio_go.Board.Replies.{Reply, Entry, aliases, decode_replies}
use aamio_go.Delivery.{In}
use aamio_go.Delivery.Tests.{taken, answer, answer-Answers, thread, post-Returns}
use aamio_go.Delivery.Replied.{ReadsBack, said, answer-Replied}

abbrev sent_map : Fields
sent_map =
    answer_fields 9 boxed world draw made_first.0 (codes "7") (codes "later") (codes "yes") none

abbrev parsing : External
parsing = reading (λ s. some sent_map)

parsed :
    ReadsBack parsing
      (said 9 parsing world draw made_first.0 (codes "7") (codes "later") (codes "yes") none)
      (codes "{}")
unfolding json answer_fields
parsed = record { encoded = refl; back = sent_map; decoded = refl; same = λ key. refl }

wrote_answer :
    (l : Letter) × (letter_of parsing
        (some made_first.0)
        box_nonce
        address
        (codes "{}")
        (answer_options 9 parsing world draw made_other.0.public)
      ≡ ok l)
unfolding letter_of is_w is_base32_char made_first made_other seal curve_public b64url encode_url
    Base64.encode toy_public sum256 is_key is_url_char unb64url has_std_char Base64.decode
    hash_prefix_of sha256_hex Hex.encode
wrote_answer = (_, refl)

abbrev as_listed : ℕ → List Entry
as_listed n = aliases

visits : (n : ℕ) → Permᴰ aliases (as_listed n)
visits n = Permᴰ.cons refl (Permᴰ.cons refl (Permᴰ.cons refl Permᴰ.nil))

answer-Replied_example :
    let raw = taken (post_request parsing wrote_answer.0 none) wrote_answer.0.body in
    let handed = (read_thread parsing (some made_other.0) thread (pos 0) (answer raw)).0 in
    (r : Reply) × In r (decode_replies as_listed 0 handed)
    × (r.message.verified ≡ true)
    × (r.message.from ≡ made_first.0.public)
    × (r.post ≡ codes "7")
    × (r.reply_to ≡ codes "later")
    × (r.text ≡ codes "yes")
unfolding normalize_allow get text_eq
answer-Replied_example =
    let l = wrote_answer.0 in
    let raw = taken (post_request parsing l none) l.body in
    let decode : Text → Option Fields = λ s. some sent_map in
    answer-Replied 9 parsing world draw made_first.0 (codes "7") (codes "later") seed other_seed
      made_other.0 (reading-SignsWell decode) (reading-SealsWell decode) (made_reading decode).0
      (made_reading decode).1 (codes "yes") none box_nonce address (codes "{}") l wrote_answer.1
      parsed (omega arith) (omega arith) refl none raw (post-Returns parsing l) refl thread refl
      (pos 0) (answer raw) (answer-Answers raw) (inl refl) as_listed visits
