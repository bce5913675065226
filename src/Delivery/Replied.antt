-- ===== src/Delivery/Replied.antt =====
-- What Answer of board.go sends is what the author of the post reads as a reply.
mod Tests
use mathlib.Core.List.{Permᴰ}
use aamio_go.Prelude.{
  ℕ, ℤ, ◌≡◌, ◌∙◌, refl, sym, subst, ap, inl, inr, true, List, [], ◌∷◌, Option, none, some, Text,
  codes, text_eq, length, IsBytes,
}
use aamio_go.Errors.{ok}
use aamio_go.External.{External, SignsWell}
use aamio_go.Json.{Fields, get, put, string}
use aamio_go.Keys.{Keys, from_seed}
use aamio_go.Keys.Sealing.{SealsWell}
use aamio_go.Client.Requests.{json}
use aamio_go.Client.Http.{Answer}
use aamio_go.Client.Allow.{normalize_allow}
use aamio_go.Client.Message.{Message, bool_at}
use aamio_go.Client.Read.{Thread, read_thread}
use aamio_go.Client.Session.{World}
use aamio_go.Client.Session.Letter.{Letter, letter_of, post_request}
use aamio_go.Board.Post.{answer_fields, answer_options}
use aamio_go.Board.Replies.{Reply, Entry, aliases, decode_replies}
use aamio_go.Board.Replies.Aliases.{ReadsAs, Matches, found, decode_replies-Matches}
use aamio_go.Delivery.{Returns, Answers, In}
use aamio_go.Delivery.HandedOver.{LetsIn}
use aamio_go.Delivery.Arrives.{sealed_letter-HandedOver}

-- The aliases of text.
abbrev others : List Text
others = codes "reply" ∷ codes "message" ∷ []

-- Two maps that hold the same under every key.
abbrev pub Same : Fields → Fields → Type 0
Same m n = (key : Text) → get key m ≡ get key n

-- What encoding/json does with a map whose texts are UTF-8: the text of it decodes to the same map.
pub record ReadsBack (x : External) (m : Fields) (body : Text) : Type 0 where
  pub encoded : json x m ≡ ok body
  pub back : Fields
  pub decoded : x.decode_object body ≡ some back
  pub same : Same back m

In-Matches :
    (m : Message) (ms : List Message) (rs : List Reply)
    → Matches ms rs
    → In m ms
    → (r : Reply) × In r rs × ReadsAs m r
In-Matches m [] rs h i = absurd i
In-Matches m (n ∷ ms) [] h i = absurd h
In-Matches m (n ∷ ms) (r ∷ rs) (reads, h) (inl e) =
    (r, inl refl, subst (λ n. ReadsAs n r) (sym e) reads)
In-Matches m (n ∷ ms) (r ∷ rs) (reads, h) (inr i) =
    let (s, there, same) = In-Matches m ms rs h i in (s, inr there, same)

found-first :
    (k v : Text) (names : List Text) (m : Message) (back : Fields)
    → m.json ≡ some back
    → get k back ≡ some (string v)
    → found k names m ≡ v
found-first k v names m back json e = rw (json, e) refl

found-nowhere :
    (k i j : Text) (m : Message) (back : Fields)
    → m.json ≡ some back
    → get k back ≡ none
    → get i back ≡ none
    → get j back ≡ none
    → found k (i ∷ j ∷ []) m ≡ []
found-nowhere k i j m back json e f g = rw (json, e, f, g) refl

module _ (fuel : ℕ) (x : External) (world : World) (draw : ℕ → Option ℕ) (k : Keys)
    (id reply_to : Text) where
  -- The map that Answer sends.
  abbrev pub said : Text → Option Fields → Fields
  said text extra = answer_fields fuel x world draw k id reply_to text extra

  said-post :
      (text : Text) (extra : Option Fields)
      → get (codes "post") (said text extra) ≡ some (string id)
  unfolding answer_fields put get text_eq
  said-post [] none = refl
  said-post [] (some d) = refl
  said-post (c ∷ s) none = refl
  said-post (c ∷ s) (some d) = refl

  said-reply_to :
      (text : Text) (extra : Option Fields)
      → get (codes "reply_to") (said text extra) ≡ some (string reply_to)
  unfolding answer_fields put get text_eq
  said-reply_to [] none = refl
  said-reply_to [] (some d) = refl
  said-reply_to (c ∷ s) none = refl
  said-reply_to (c ∷ s) (some d) = refl

  -- A text that is empty is left out, and no alias of it is there.
  said-text :
      (text : Text) (extra : Option Fields) (m : Message) (back : Fields)
      → m.json ≡ some back
      → Same back (said text extra)
      → found (codes "text") others m ≡ text
  unfolding answer_fields put get text_eq
  said-text [] none m back json same =
      found-nowhere (codes "text") (codes "reply") (codes "message") m back json
        (same (codes "text")) (same (codes "reply")) (same (codes "message"))
  said-text [] (some d) m back json same =
      found-nowhere (codes "text") (codes "reply") (codes "message") m back json
        (same (codes "text")) (same (codes "reply")) (same (codes "message"))
  said-text (c ∷ s) none m back json same =
      found-first (codes "text") (c ∷ s) others m back json (same (codes "text"))
  said-text (c ∷ s) (some d) m back json same =
      found-first (codes "text") (c ∷ s) others m back json (same (codes "text"))

  -- An answer that Answer sends to a post sealed to the key of its author, returned and called
  -- sealed by a service that keeps to its protocol, is among the replies that the author reads from
  -- a thread at the address of the post that lets the sender in: verified, with the sender's key,
  -- and with the id of the post, the address to reply to and the text that were given, in whatever
  -- order Go visits the aliases; for ed25519, JSON and the box as documented, and a body that
  -- decodes to the map that it was encoded from.
  pub answer-Replied :
      (seed seed' : Text) (p : Keys)
      → SignsWell x
      → SealsWell x
      → from_seed x seed ≡ ok k
      → from_seed x seed' ≡ ok p
      → (text : Text) (extra : Option Fields) (random w body : Text) (l : Letter)
      → letter_of x (some k) random w body (answer_options fuel x world draw p.public) ≡ ok l
      → ReadsBack x (said text extra) body
      → IsBytes body
      → IsBytes random
      → length random ≡ 24
      → (work : Option Text) (raw : Fields) → Returns (post_request x l work) raw
      → bool_at (codes "sealed") raw ≡ true
      → (t : Thread) → t.w ≡ w
      → (after : ℤ) (a : Answer) → Answers a raw
      → LetsIn (normalize_allow t.allow) k.public
      → (order : ℕ → List Entry) → ((n : ℕ) → Permᴰ aliases (order n))
      → (r : Reply) × In r (decode_replies order 0 (read_thread x (some p) t after a).0)
        × (r.message.verified ≡ true)
        × (r.message.from ≡ k.public)
        × (r.post ≡ id)
        × (r.reply_to ≡ reply_to)
        × (r.text ≡ text)
  answer-Replied seed seed' p signs seals made made' text extra random w body l wrote parsed hb hr n
        work raw returned flag t at_w after a answered trusted order visits =
      let (m, (there, verified, from), format, opened, read) =
        sealed_letter-HandedOver x seed seed' k p signs seals made made' random w body
          (answer_options fuel x world draw p.public) l wrote refl refl hb hr n work raw returned
          flag t at_w after a answered trusted in
      let handed = (read_thread x (some p) t after a).0 in
      let (r, among, (post, to, says, _, is_m)) =
        In-Matches m handed (decode_replies order 0 handed)
          (decode_replies-Matches order visits 0 handed) there in
      let back = parsed.back in
      let same = parsed.same in
      let json = read ∙ parsed.decoded in
      (
        r,
        among,
        ap (λ m. m.verified) is_m ∙ verified,
        ap (λ m. m.from) is_m ∙ from,
        post
            ∙ found-first (codes "post") id (codes "post_id" ∷ []) m back json
                (same (codes "post") ∙ said-post text extra),
        to
            ∙ found-first (codes "reply_to") reply_to
                (codes "w" ∷ codes "reply_address" ∷ codes "replyTo" ∷ []) m back json
                (same (codes "reply_to") ∙ said-reply_to text extra),
        says ∙ said-text text extra m back json same,
      )
