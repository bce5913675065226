-- ===== src/Board/Replies/Aliases.antt =====
-- The order in which decodeReplies of board.go visits the aliases does not matter.
use mathlib.Core.List.{Permᴰ}
use mathlib.Core.List.Permᴰ
use aamio_go.Prelude.{
  ℕ, suc, false, List, [], ◌∷◌, Option, none, some, Text, codes, text_eq, text_eq_iff, text_eq_refl,
  contains, ◌≡◌, refl, ap, ◌∙◌, All, All-permutes, Pairs, Pairs-permutes, if◌then◌else◌, arith,
  Bool-cases, inl, inr,
}
use aamio_go.Json.{Json, Fields, get, as_object, as_string, string_or_empty}
use aamio_go.Json.Laws.{get-put}
use aamio_go.Client.Message.{Message}
use aamio_go.Board.Replies.{
  Entry, aliases, Renamed, rename_by, unless_there, rename_first, rename_one, rename_all, Reply,
  decode_reply, decode_replies, fields_or_new,
}

-- The value of the first name that is there.
abbrev or_next : Option Json → Option Json → Option Json
or_next (some v) next = some v
or_next none next = next

abbrev pub first_of : List Text → Fields → Option Json
first_of [] j = none
first_of (k ∷ names) j = or_next (get k j) (first_of names j)

rename_by-get :
    (c k alias : Text) (s rest : Renamed) (o next : Option Json)
    → get k rest.0 ≡ (if text_eq k c then next else get k s.0)
    → get k (rename_by c alias s rest o).0 ≡ (if text_eq k c then or_next o next else get k s.0)
rename_by-get c k alias s rest none next h = h
rename_by-get c k alias (j, renamed) rest (some v) next h = get-put c k v j

rename_first-get :
    (c k : Text) (names : List Text) (s : Renamed)
    → get c s.0 ≡ none
    → get k (rename_first c names s).0 ≡ (if text_eq k c then first_of names s.0 else get k s.0)
unfolding rename_first
rename_first-get c k [] s h = ground (arith, text_eq_iff k c)
rename_first-get c k (alias ∷ names) s h =
    rename_by-get c k alias s (rename_first c names s) (get alias s.0) (first_of names s.0)
      (rename_first-get c k names s h)

-- A name gets the first value among itself and its aliases, and no other name changes.
rename_one-get :
    (c k : Text) (names : List Text) (s : Renamed)
    → get k (rename_one (c, names) s).0
      ≡ (if text_eq k c then first_of (c ∷ names) s.0 else get k s.0)
unfolding rename_one
rename_one-get c k names s = go (get c s.0) refl
  where
    go :
        (o : Option Json)
        → get c s.0 ≡ o
        → get k (unless_there o s (rename_first c names s)).0
          ≡ (if text_eq k c then or_next o (first_of names s.0) else get k s.0)
    go none e = rename_first-get c k names s e
    go (some v) e = elim (Bool-cases (text_eq k c)) [
      | inl same ↦ rw same (rw ((text_eq_iff k c).0 same) e)
      | inr other ↦ rw other refl
    ]

-- Names apart from the first of an entry find what they found before.
first_of-rename_one :
    (c : Text) (names ks : List Text) (s : Renamed)
    → contains c ks ≡ false
    → first_of ks (rename_one (c, names) s).0 ≡ first_of ks s.0
first_of-rename_one c names [] s h = refl
first_of-rename_one c names (k ∷ ks) s h =
    let apart : text_eq k c ≡ false = ground (arith, text_eq_iff k c, text_eq_iff c k) in
    let get_same : get k (rename_one (c, names) s).0 ≡ get k s.0 =
      rename_one-get c k names s ∙ (rw apart refl) in
    rw (get_same, first_of-rename_one c names ks s (ground arith)) refl

-- Neither entry's name is among the other's names.
abbrev pub Apart : Entry → Entry → Type 0
Apart (c, names) (d, others) = (contains c (d ∷ others) ≡ false) × (contains d (c ∷ names) ≡ false)

get-rename_all :
    (k : Text) (order : List Entry) (s : Renamed)
    → All (λ e. text_eq k e.0 ≡ false) order
    → get k (rename_all order s).0 ≡ get k s.0
unfolding rename_all
get-rename_all k [] s h = refl
get-rename_all k ((c, names) ∷ order) s (apart, h) =
    get-rename_all k order (rename_one (c, names) s) h
    ∙ rename_one-get c k names s
    ∙ (rw apart refl)

-- What each name of an entry has when all are renamed.
abbrev Settles : Fields → Fields → Entry → Type 0
Settles j j' (c, names) = get c j' ≡ first_of (c ∷ names) j

settle_later :
    (c : Text) (names : List Text) (s : Renamed) (j' : Fields) (order : List Entry)
    → All (Apart (c, names)) order
    → All (Settles (rename_one (c, names) s).0 j') order
    → All (Settles s.0 j') order
settle_later c names s j' [] a h = tt
settle_later c names s j' ((d, others) ∷ order) ((apart, _), a) (e, h) =
    (e ∙ first_of-rename_one c names (d ∷ others) s apart, settle_later c names s j' order a h)

Apart-names :
    (c : Text) (names : List Text) (order : List Entry)
    → All (Apart (c, names)) order
    → All (λ e. text_eq c e.0 ≡ false) order
Apart-names c names [] h = tt
Apart-names c names ((d, others) ∷ order) ((apart, _), h) =
    (ground arith, Apart-names c names order h)

rename_all-Settles :
    (order : List Entry) (s : Renamed)
    → Pairs Apart order
    → All (Settles s.0 (rename_all order s).0) order
unfolding rename_all
rename_all-Settles [] s h = tt
rename_all-Settles ((c, names) ∷ order) s (a, h) =
    let s1 = rename_one (c, names) s in
    (
      get-rename_all c order s1 (Apart-names c names order a)
          ∙ rename_one-get c c names s
          ∙ (rw (text_eq_refl c) refl),
      settle_later c names s (rename_all order s1).0 order a (rename_all-Settles order s1 h),
    )

aliases-Apart : Pairs Apart aliases
unfolding text_eq
aliases-Apart = (((refl, refl), ((refl, refl), tt)), (((refl, refl), tt), (tt, tt)))

abbrev text_of : Option Json → Text
text_of v = string_or_empty (as_string v)

abbrev pub found : Text → List Text → Message → Text
found k names m = text_of (first_of (k ∷ names) (fields_or_new m.json))

-- A reply is the message with what it says under each name or, in their order, its aliases.
abbrev pub ReadsAs : Message → Reply → Type 0
ReadsAs m r =
    (r.post ≡ found (codes "post") (codes "post_id" ∷ []) m)
    × (r.reply_to
        ≡ found (codes "reply_to") (codes "w" ∷ codes "reply_address" ∷ codes "replyTo" ∷ []) m)
    × (r.text ≡ found (codes "text") (codes "reply" ∷ codes "message" ∷ []) m)
    × (r.extra ≡ as_object (get (codes "data") (fields_or_new m.json)))
    × (record r.message { json = m.json } ≡ m)

abbrev pub Matches : List Message → List Reply → Type 0
Matches [] [] = Unit
Matches (m ∷ ms) (r ∷ rs) = ReadsAs m r × Matches ms rs
Matches _ _ = ⊥

decode_reply-ReadsAs :
    (order : List Entry) (m : Message) → Permᴰ aliases order → ReadsAs m (decode_reply order m)
unfolding decode_reply text_eq
decode_reply-ReadsAs order m p =
    let j = fields_or_new m.json in
    let settled =
      rename_all-Settles order (j, [])
        (Pairs-permutes Apart (λ x y (h, k). (k, h)) p aliases-Apart) in
    let (post, (reply_to, (text, _))) = All-permutes _ (Permᴰ.symm p) settled in
    let data_apart =
      All-permutes (λ e. text_eq (codes "data") e.0 ≡ false) p (refl, (refl, (refl, tt))) in
    (
      ap text_of post,
      ap text_of reply_to,
      ap text_of text,
      ap as_object (get-rename_all (codes "data") order (j, []) data_apart),
      refl,
    )

-- Every message that was read is a reply, in order, plain text and envelopes that did not open
-- included: the message itself with its checks, and what it says under post, reply_to, text and
-- data or the first alias of each. In which order Go visits the aliases makes no difference.
pub decode_replies-Matches :
    (order : ℕ → List Entry)
    → ((n : ℕ) → Permᴰ aliases (order n))
    → (n : ℕ) (ms : List Message) → Matches ms (decode_replies order n ms)
unfolding decode_replies
decode_replies-Matches order p n [] = tt
decode_replies-Matches order p n (m ∷ ms) =
    (decode_reply-ReadsAs (order n) m (p n), decode_replies-Matches order p (suc n) ms)
