-- ===== src/Board/Replies/Tests.antt =====
-- The theorem of Replies at an answer that uses the aliases, visited in another order.
use mathlib.Core.List.{Permᴰ}
use aamio_go.Prelude.{ℕ, pos, true, List, [], ◌∷◌, none, some, codes, refl, ◌≡◌, text_eq, insert}
use aamio_go.Json.{end, field, string, get, put}
use aamio_go.Client.Message.{Message, sealed}
use aamio_go.Board.Replies.{
  Entry, aliases, post_names, reply_to_names, text_names, decode_reply, decode_replies,
}
use aamio_go.Board.Replies.Aliases.{Matches, decode_replies-Matches}

abbrev answer : Message
answer = record {
  seq = pos 1;
  at = pos 1789201272;
  from = codes "k";
  verified = true;
  sealed = true;
  body = [];
  opened = [];
  format = sealed;
  failure = none;
  json = some (
      field (codes "replyTo") (string (codes "later")) (
        field (codes "w") (string (codes "first"))
          (field (codes "post_id") (string (codes "7")) end)));
  unverified_because = none;
}

abbrev rotated : ℕ → List Entry
rotated n = text_names ∷ post_names ∷ reply_to_names ∷ []

rotates : (n : ℕ) → Permᴰ aliases (rotated n)
rotates n = Permᴰ.trans (Permᴰ.cons refl (Permᴰ.swap refl refl)) (Permᴰ.swap refl refl)

decode_replies-Matches_example : Matches (answer ∷ []) (decode_replies rotated 0 (answer ∷ []))
decode_replies-Matches_example = decode_replies-Matches rotated rotates 0 (answer ∷ [])

-- Of two aliases of a name the one that stands first in its list counts.
first_alias : (decode_reply (rotated 0) answer).reply_to ≡ codes "first"
unfolding decode_reply text_eq get put insert
first_alias = refl
