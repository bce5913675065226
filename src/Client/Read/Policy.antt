-- ===== src/Client/Read/Policy.antt =====
-- What a read of a thread hands over, and what it keeps out.
use aamio_go.Prelude.{
  ℕ, ℤ, ◌≡◌, ◌≢◌, ◌⊎◌, inl, inr, refl, ◌∙◌, Bool, true, not, List, [], ◌∷◌, ◌++◌, Option, none,
  some, Text, All, map, append_assoc, append-nil, contains, ◌==◌, if◌then◌else◌, arith, Bool-cases,
  codes,
}
use aamio_go.Json.{Items, nil, cons, Fields, get, as_list}
use aamio_go.External.{External}
use aamio_go.Keys.{Keys}
use aamio_go.Client.Message.{Message, text_at, decode_at}
use aamio_go.Client.Message.Checks.{IsAuthentic}
use aamio_go.Client.Message.Decoding.{decode_at-verified}
use aamio_go.Client.Allow.{star, normalize_allow}
use aamio_go.Client.Http.{Answer}
use aamio_go.Client.Read.{
  Thread, KeptOut, fields_of, decode_all, messages_of, read_body, read_answer, is_allowed, kept_out,
  enforce, by_policy, read_thread,
}

-- The elements that pass a test, in their order.
abbrev pub select {ℓ} : {A : Type ℓ} → (A → Bool) → List A → List A
select p [] = []
select p (a ∷ as') = if p a then a ∷ select p as' else select p as'

abbrev pub refused : List Text → Message → Bool
refused allow m = not (is_allowed allow m)

enforce-select :
    (allow : List Text) (ms handed : List Message) (kept : List KeptOut)
    → enforce allow ms handed kept ≡ (
      handed ++ select (is_allowed allow) ms,
      kept ++ map (kept_out allow) (select (refused allow) ms),
    )
unfolding enforce
enforce-select allow [] handed kept = rw (append-nil handed, append-nil kept)
enforce-select allow (m ∷ ms) handed kept = elim (Bool-cases (is_allowed allow m)) [
  | inl e ↦ rw e (enforce-select allow ms (handed ++ m ∷ []) kept ∙ rw (append_assoc))
  | inr e ↦
      rw e (enforce-select allow ms handed (kept ++ kept_out allow m ∷ []) ∙ rw (append_assoc))
]

abbrev Outcome : Type 0
Outcome = List Message × List KeptOut × ℤ

by_list :
    (allow : List Text) (r : List Message × ℤ)
    → let out = by_policy allow r.0 in
      (allow ≢ []
        → ◌≡◌ {A = Outcome}
            (out.0, out.1, r.1)
            (select (is_allowed allow) r.0, map (kept_out allow) (select (refused allow) r.0), r.1))
      × (allow ≡ [] → ◌≡◌ {A = Outcome} (out.0, out.1, r.1) (r.0, [], r.1))
by_list [] r = (λ n. absurd (n refl), λ _. refl)
by_list (k ∷ ks) r = (λ _. rw (enforce-select (k ∷ ks) r.0 [] []), λ e. cc)

module _ (x : External) (keys : Option Keys) (t : Thread) (after : ℤ) (a : Answer) where
  -- Of the messages that a read gives, those that the normalized list allows are handed over and
  -- the others are listed as kept out, each in the order of the answer, so that none is lost; a
  -- thread with no list hands over all. The cursor is the read's.
  pub read_thread-partition :
      let allow = normalize_allow t.allow in
      let r = read_answer x keys t.w after a in
      (allow ≢ []
        → read_thread x keys t after a
          ≡ (select (is_allowed allow) r.0, map (kept_out allow) (select (refused allow) r.0), r.1))
      × (allow ≡ [] → read_thread x keys t after a ≡ (r.0, [], r.1))
  unfolding read_thread
  read_thread-partition = by_list (normalize_allow t.allow) (read_answer x keys t.w after a)

  -- Where a message handed over comes from: it is authentic at the address, and signed by a key on
  -- the list, or by any key where the list holds "*".
  abbrev pub Trusted : List Text → Message → Type 0
  Trusted allow m =
      (raw : Fields) × (m ≡ decode_at x keys t.w raw)
      × IsAuthentic x t.w raw
      × ((contains star allow ≡ true) ⊎ (contains (text_at (codes "from") raw) allow ≡ true))

  decode_at-Trusted :
      (allow : List Text) (raw : Fields)
      → is_allowed allow (decode_at x keys t.w raw) ≡ true
      → Trusted allow (decode_at x keys t.w raw)
  unfolding is_allowed
  decode_at-Trusted allow raw h =
      let (v, f, b) = decode_at-verified x keys t.w raw in
      let verified : (decode_at x keys t.w raw).verified ≡ true = ground arith in
      let from : (decode_at x keys t.w raw).from ≡ text_at (codes "from") raw = f ∙ rw verified in
      (raw, refl, (v.0 verified).1, rw (← from) (ground arith))

  select-Trusted :
      (allow : List Text) (items : Items)
      → All (Trusted allow) (select (is_allowed allow) (decode_all x keys t.w items))
  unfolding decode_all
  select-Trusted allow nil = tt
  select-Trusted allow (cons item items) =
      elim (Bool-cases (is_allowed allow (decode_at x keys t.w (fields_of item)))) [
        | inl e ↦ rw e (decode_at-Trusted allow (fields_of item) e, select-Trusted allow items)
        | inr e ↦ rw e (select-Trusted allow items)
      ]

  -- The messages of a read are the decoded items of a list, the empty one for a refusal.
  abbrev OfItems : List Message → Type 0
  OfItems ms = (items : Items) × (ms ≡ decode_all x keys t.w items)

  messages_of-items : (l : Option Items) → OfItems (messages_of x keys t.w l)
  unfolding decode_all
  messages_of-items none = (nil, refl)
  messages_of-items (some items) = (items, refl)

  read_body-items :
      (status : ℕ) (body : Option Fields) → OfItems (read_body x keys t.w after status body).0
  unfolding read_body decode_all
  read_body-items status none = (nil, refl)
  read_body-items status (some body) = elim (Bool-cases (status == 200)) [
    | inl ok ↦ rw ok (messages_of-items (as_list (get (codes "messages") body)))
    | inr bad ↦ rw bad (nil, refl)
  ]

  read_answer-items : OfItems (read_answer x keys t.w after a).0
  unfolding read_answer
  read_answer-items = read_body-items a.status a.body

  -- For a thread whose normalized list is not empty, every message handed over is authentic at the
  -- thread's address, and signed by a key on that list, or by any key where the list holds "*".
  pub read_thread-Trusted :
      normalize_allow t.allow ≢ []
      → All (Trusted (normalize_allow t.allow)) (read_thread x keys t after a).0
  read_thread-Trusted n =
      let (items, e) = read_answer-items in
      rw (read_thread-partition.0 n, e) (select-Trusted (normalize_allow t.allow) items)
