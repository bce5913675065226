-- ===== src/Delivery/HandedOver.antt =====
-- What ReadThread makes of an answer with a message of a sender that its allowlist lets through.
use aamio_go.Prelude.{
  ℤ, ◌≡◌, ◌≢◌, ◌⊎◌, inl, inr, ◌∙◌, sym, ap, Bool, true, List, [], ◌∷◌, Option, Text, contains,
  arith, Bool-cases,
}
use aamio_go.External.{External}
use aamio_go.Json.{Items, nil, cons, Fields}
use aamio_go.Keys.{Keys}
use aamio_go.Client.Http.{Answer}
use aamio_go.Client.Allow.{star, normalize_allow}
use aamio_go.Client.Message.{Message, decode_at}
use aamio_go.Client.Read.{
  Thread, decode_all, read_body, read_answer, is_allowed, read_thread, fields_of,
}
use aamio_go.Client.Read.Policy.{select, read_thread-partition}
use aamio_go.Delivery.{Among, Answers, In}

-- A normalized allowlist that lets verified messages of a key through.
abbrev pub LetsIn : List Text → Text → Type 0
LetsIn allow key = (allow ≡ []) ⊎ ((contains star allow ≡ true) ⊎ (contains key allow ≡ true))

In-select :
    {A : Type 0} (p : A → Bool) (a : A) (l : List A) → p a ≡ true → In a l → In a (select p l)
In-select p a [] h i = i
In-select p a (b ∷ bs) h (inl e) = rw (ap p (sym e) ∙ h) (inl e)
In-select p a (b ∷ bs) h (inr i) = elim (Bool-cases (p b)) [
  | inl e ↦ rw e (inr (In-select p a bs h i))
  | inr e ↦ rw e (In-select p a bs h i)
]

not_empty :
    (allow : List Text) (key : Text)
    → (contains star allow ≡ true) ⊎ (contains key allow ≡ true)
    → allow ≢ []
not_empty [] key (inl h) e = cc
not_empty [] key (inr h) e = cc
not_empty (k ∷ ks) key h e = cc

module _ (x : External) (keys : Option Keys) where
  In-decode_all :
      (w : Text) (raw : Fields) (items : Items)
      → Among raw items
      → In (decode_at x keys w raw) (decode_all x keys w items)
  unfolding decode_all
  In-decode_all w raw nil h = h
  In-decode_all w raw (cons item items) (inl e) =
      inl (ap (λ j. decode_at x keys w (fields_of j)) (sym e))
  In-decode_all w raw (cons item items) (inr h) = inr (In-decode_all w raw items h)

  In-read_answer :
      (w : Text) (after : ℤ) (a : Answer) (raw : Fields)
      → Answers a raw
      → In (decode_at x keys w raw) (read_answer x keys w after a).0
  unfolding read_answer read_body
  In-read_answer w after a raw h =
      rw (h.ok_status, h.has_body, h.has_messages) (In-decode_all w raw h.items h.among)

  is_allowed_lem :
      (allow : List Text) (m : Message)
      → m.verified ≡ true
      → (contains star allow ≡ true) ⊎ (contains m.from allow ≡ true)
      → is_allowed allow m ≡ true
  unfolding is_allowed
  is_allowed_lem allow m v h = ground arith

  -- A verified message in the answer, of a key that is let in, is handed over.
  pub In-read_thread :
      (t : Thread) (after : ℤ) (a : Answer) (raw : Fields)
      → Answers a raw
      → (decode_at x keys t.w raw).verified ≡ true
      → LetsIn (normalize_allow t.allow) (decode_at x keys t.w raw).from
      → In (decode_at x keys t.w raw) (read_thread x keys t after a).0
  In-read_thread t after a raw h v (inl open_to_all) =
      rw ((read_thread-partition x keys t after a).1 open_to_all) (In-read_answer t.w after a raw h)
  In-read_thread t after a raw h v (inr held) =
      let allow = normalize_allow t.allow in
      let m = decode_at x keys t.w raw in
      let listed : allow ≢ [] = not_empty allow m.from held in
      rw ((read_thread-partition x keys t after a).0 listed) (
        In-select (is_allowed allow) m (read_answer x keys t.w after a).0
          (is_allowed_lem allow m v held) (In-read_answer t.w after a raw h))
