-- ===== src/Delivery/Polls.antt =====
-- The loop that client.go documents: a read after a read, each from the cursor of the one before.
-- What Gives says of the service is what the comment on ReadLimited does.
mod Tests
use aamio_go.Prelude.{
  ℕ, zero, suc, ◌≤◌, ◌<◌, ℤ, pos, ltb, true, false, ◌==◌, List, [], ◌∷◌, ◌++◌, Option, none, some,
  Text, codes, ◌≡◌, ◌∙◌, refl, sym, ap, subst, arith, map, length, All, All-append, All-weaken,
  ==_iff, length-append, append_assoc, append-nil, Bool-cases, inl, inr, if◌then◌else◌,
}
use aamio_go.Json.{Items, nil, cons, Fields, object, array, get, integer}
use aamio_go.External.{External}
use aamio_go.Keys.{Keys}
use aamio_go.Client.Http.{Answer}
use aamio_go.Client.Message.{Message, decode_at}
use aamio_go.Client.Read.{read_request, read_answer, read_body, decode_all}
use aamio_go.Client.Session.{World, State, M, call}
use aamio_go.Client.Requests.{read}

-- A message that the service holds, with its number.
pub record Held : Type 0 where
  pub seq : ℕ
  pub raw : Fields

abbrev pub items_of : List Held → Items
items_of [] = nil
items_of (e ∷ l) = cons (object e.raw) (items_of l)

abbrev pub later_than : ℕ → List Held → List Held
later_than c [] = []
later_than c (e ∷ l) = if ltb c e.seq then e ∷ later_than c l else later_than c l

abbrev pub last_or : ℕ → List Held → ℕ
last_or c [] = c
last_or c (e ∷ l) = last_or e.seq l

-- Numbered in order.
abbrev pub Increasing : List Held → Type 0
Increasing [] = Unit
Increasing (e ∷ l) = All (λ f. e.seq < f.seq) l × Increasing l

-- An answer to a read from a cursor: some messages from the first after it on, at least one while
-- there is any, and as next the number of the last.
pub record Gives (log : List Held) (c : ℕ) (a : Answer) : Type 0 where
  pub given : List Held
  pub left : List Held
  pub split : later_than c log ≡ given ++ left
  pub some_while : given ≡ [] → left ≡ []
  pub body : Fields
  pub has_body : a.body ≡ some body
  pub has_messages : get (codes "messages") body ≡ some (array (items_of given))
  pub has_next : integer (get (codes "next") body) ≡ (pos (last_or c given), true)

later_than-skip :
    (c : ℕ) (before l : List Held)
    → All (λ e. e.seq ≤ c) before
    → later_than c (before ++ l) ≡ later_than c l
later_than-skip c [] l h = refl
later_than-skip c (e ∷ before) l (le, h) = ground (arith, later_than-skip c before l h)

later_than-All : (c : ℕ) (l : List Held) → All (λ e. c < e.seq) l → later_than c l ≡ l
later_than-All c [] h = refl
later_than-All c (e ∷ l) (lt, h) = ground (arith, later_than-All c l h)

-- Where a cursor stands: behind what was handed over and before what is left.
abbrev Stands : ℕ → List Held → List Held → Type 0
Stands c taken left = All (λ e. e.seq ≤ c) taken × All (λ e. c < e.seq) left × Increasing left

Stands-last :
    (c : ℕ) (taken given left : List Held)
    → Stands c taken (given ++ left)
    → Stands (last_or c given) (taken ++ given) left
Stands-last c taken [] left h = subst (λ t. Stands c t left) (sym (append-nil taken)) h
Stands-last c taken (e ∷ given) left (le, (lt, above), (next, order)) =
    let here : All (λ f. f.seq ≤ e.seq) (taken ++ e ∷ []) =
      All-append (λ f. f.seq ≤ e.seq) taken (e ∷ []) (All-weaken (λ f h. omega arith) taken le)
        (omega arith, tt) in
    subst (λ t. Stands (last_or e.seq given) t left) (append_assoc taken (e ∷ []) given)
      (Stands-last e.seq (taken ++ e ∷ []) given left (here, next, order))

module _ (x : External) (keys : Option Keys) (w : Text) where
  abbrev pub decoded : List Held → List Message
  decoded l = map (λ e. decode_at x keys w e.raw) l

  decode_all-items : (l : List Held) → decode_all x keys w (items_of l) ≡ decoded l
  unfolding decode_all
  decode_all-items [] = refl
  decode_all-items (e ∷ l) = ap (λ ms. decode_at x keys w e.raw ∷ ms) (decode_all-items l)

  read_answer-given :
      (log : List Held) (c : ℕ) (a : Answer) (g : Gives log c a)
      → a.status ≡ 200
      → read_answer x keys w (pos c) a ≡ (decoded g.given, pos (last_or c g.given))
  unfolding read_answer read_body
  read_answer-given log c a g s =
      rw (s, g.has_body, g.has_messages, g.has_next)
        (ap (λ ms. (ms, pos (last_or c g.given))) (decode_all-items g.given))

  read_answer-failed :
      (c : ℕ) (a : Answer) → a.status == 200 ≡ false → read_answer x keys w (pos c) a ≡ ([], pos c)
  unfolding read_answer read_body
  read_answer-failed c a e = failed a.status a.body e
    where
      failed :
          (status : ℕ) (body : Option Fields)
          → status == 200 ≡ false
          → read_body x keys w (pos c) status body ≡ ([], pos c)
      failed status none e = refl
      failed status (some body) e = rw e refl

  decoded-append : (l m : List Held) → decoded l ++ decoded m ≡ decoded (l ++ m)
  decoded-append [] m = refl
  decoded-append (e ∷ l) m = ap (λ ms. decode_at x keys w e.raw ∷ ms) (decoded-append l m)

  -- What reads hand over of what was left, and what they leave.
  abbrev Course : List Held → List Message × ℤ × ℕ → Type 0
  Course left (messages, next, answered) =
      (given : List Held) × (rest : List Held) × (left ≡ given ++ rest)
      × (messages ≡ decoded given)
      × (length left ≤ answered → rest ≡ [])

  empty : (l : List Held) → length l ≤ 0 → l ≡ []
  empty [] h = refl
  empty (e ∷ l) h = absurd (omega arith)

  -- One read more leaves one message less, at least.
  shorter :
      (given left : List Held) (n : ℕ)
      → (given ≡ [] → left ≡ [])
      → length (given ++ left) ≤ suc n
      → length left ≤ n
  shorter [] left n h le = rw (h refl) (omega arith)
  shorter (e ∷ given) left n h le = omega (arith, length-append given left, le)

  Course-then :
      (left given later : List Held) (out : List Message × ℤ × ℕ)
      → left ≡ given ++ later
      → (given ≡ [] → later ≡ [])
      → Course later out
      → Course left (decoded given ++ out.0, out.1, suc out.2)
  Course-then left given later out split some_while (more, rest, e, m, enough) = (
    given ++ more,
    rest,
    split ∙ ap (λ l. given ++ l) e ∙ sym (append_assoc given more rest),
    ap (λ ms. decoded given ++ ms) m ∙ decoded-append given more,
    λ le.
        enough (shorter given later out.2 some_while (subst (λ l. length l ≤ suc out.2) split le)),
  )

  module _ (world : World) (id : Text) (wait : ℤ) where
    -- The documented loop: the messages of so many reads, the cursor after them, and how many of
    -- the reads were answered by a 200.
    unfoldable pub polls : ℕ → ℤ → M (List Message × ℤ × ℕ)
    unfolding read
    polls zero after s = (([], after, 0), s)
    polls (suc n) after s =
        let ((a, messages, next), s1) = read x world keys w id after wait s in
        let ((more, end, answered), s2) = polls n next s1 in
        ((messages ++ more, end, if a.status == 200 then suc answered else answered), s2)

    module _ (log : List Held)
        (service : (k c : ℕ)
          → let a = world.respond k (read_request w id (pos c) wait (pos 0) (pos 0)) in
            a.status ≡ 200 → Gives log c a) where
      polls-Course :
          (n c : ℕ) (taken left : List Held) (s : State)
          → log ≡ taken ++ left
          → Stands c taken left
          → Course left (polls n (pos c) s).0
      unfolding polls read call
      polls-Course zero c taken left s e h = ([], left, refl, refl, empty left)
      polls-Course (suc n) c taken left s e h =
          let r = read_request w id (pos c) wait (pos 0) (pos 0) in
          let a = world.respond (length s.calls) r in
          let s1 = (call world r s).1 in
          elim (Bool-cases (a.status == 200)) [
            | inl ok ↦
                let status : a.status ≡ 200 = (==_iff a.status 200).0 ok in
                let g = service (length s.calls) c status in
                let split : left ≡ g.given ++ g.left =
                  sym (
                    ap (later_than c) e
                    ∙ later_than-skip c taken left h.0
                    ∙ later_than-All c left h.1)
                  ∙ g.split in
                let stands =
                  Stands-last c taken g.given g.left (subst (λ l. Stands c taken l) split h) in
                let log_is : log ≡ (taken ++ g.given) ++ g.left =
                  e ∙ ap (λ l. taken ++ l) split ∙ sym (append_assoc taken g.given g.left) in
                let rest =
                  polls-Course n (last_or c g.given) (taken ++ g.given) g.left s1 log_is stands in
                rw (ok, read_answer-given log c a g status)
                  (Course-then left g.given g.left (polls n (pos (last_or c g.given)) s1).0 split
                    g.some_while rest)
            | inr failed ↦
                rw (failed, read_answer-failed c a failed) (polls-Course n c taken left s1 e h)
          ]

      -- In the documented loop, from cursor 0 on and with any reads that fail in between, what is
      -- handed over is what the service holds from the first message on, in order and each once,
      -- as DecodeAt has it; and when as many reads were answered as there are messages, it is all of
      -- them. The service numbers its messages in order from above 0 on, and answers a read that it
      -- does not refuse with some from the first after the cursor on, at least one while there is
      -- any, and the number of the last.
      pub polls-HandedOver :
          Increasing log
          → All (λ e. 0 < e.seq) log
          → (n : ℕ) (s : State)
          → let (messages, next, answered) = (polls n (pos 0) s).0 in
            (given : List Held) × (rest : List Held) × (log ≡ given ++ rest)
            × (messages ≡ decoded given)
            × (length log ≤ answered → rest ≡ [])
      polls-HandedOver order above n s = polls-Course n 0 [] log s refl (tt, above, order)
