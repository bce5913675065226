-- ===== src/Client/Session/Tasks/Holds.antt =====
-- What a task relies on and what it keeps, part by part: others only add calls and keep what holds
-- of the client, and so does each of its parts.
use aamio_go.Prelude.{
  Bool, true, false, ◌&&◌, List, [], ◌∷◌, ◌++◌, Option, none, some, Text, lookup, ◌≡◌, refl, ap,
  ◌∙◌, sym, subst, append-nil, append_assoc, inl,
}
use aamio_go.Json.{Fields}
use aamio_go.Json.Keys.{is_some}
use aamio_go.Json.Number.{parse_int}
use aamio_go.External.{External}
use aamio_go.Gate.Plan.{Plan}
use aamio_go.Client.Http.{Request, Answer}
use aamio_go.Client.Session.{
  World, State, M, gate_request, call, seconds_left, forget_gate, keep_gate, gate_of,
}
use aamio_go.Client.Session.Invariant.{
  IsSound, Came, Came-append, call-Keeps, forget_gate-Keeps, keep_gate-IsSound, note_left-IsSound,
  seconds_left-Keeps, kept-after,
}
use aamio_go.Client.Session.Cache.{count_down-calls, note_left-calls}
use aamio_go.Client.Session.Tasks.{
  Task, returns, does, ◌>>=◌, lookup_gate, fetch_task, kept_task, gate_task, left_task,
  plan_once_task, plan_again_task, plan_to_task, store_gate,
}

-- The calls with more of them, or none.
abbrev pub Extends : List Request → List Request → Type 0
Extends before calls = (more : List Request) × (calls ≡ before ++ more)

pub Extends-refl : (calls : List Request) → Extends calls calls
Extends-refl calls = ([], sym (append-nil calls))

pub Extends-same : {before calls : List Request} → calls ≡ before → Extends before calls
Extends-same {before} e = ([], e ∙ sym (append-nil before))

pub Extends-trans : (a b c : List Request) → Extends a b → Extends b c → Extends a c
Extends-trans a b c (more, e) (most, f) =
    (more ++ most, f ∙ ap (λ calls. calls ++ most) e ∙ append_assoc a more most)

-- Nothing is asked of the result.
abbrev pub Any : {A : Type 0} → List Request → A → Type 0
Any calls a = Unit

module _ (x : External) (world : World) where
  pub Came-later :
      {before calls : List Request} (e : Text × Option Fields)
      → Came x world before e
      → Extends before calls
      → Came x world calls e
  Came-later {before} e c (more, grown) =
      subst (λ calls. Came x world calls e) (sym grown) (Came-append x world before more e c)

  -- A part keeps what holds of the client and forgets no call.
  abbrev pub Good : {A : Type 0} → M A → State → Type 0
  Good m s = IsSound x world (m s).1 × Extends s.calls (m s).1.calls

  -- A task, begun when these calls were made and run in parts with others between them, keeps what
  -- holds of the client, and ends with a result that Q holds of.
  abbrev pub Holds : {A : Type 0} → (List Request → A → Type 0) → List Request → Task A → Type 0
  Holds Q calls (returns a) = Q calls a
  Holds Q calls (does m k) =
      (s : State)
      → Extends calls s.calls
      → IsSound x world s
      → Good m s × Holds Q (m s).1.calls (k (m s).0)

  pub Holds-later :
      {A : Type 0} (before calls : List Request) (t : Task A)
      → Holds Any before t
      → Extends before calls
      → Holds Any calls t
  Holds-later before calls (returns a) h e = tt
  Holds-later before calls (does m k) h e = λ s f. h s (Extends-trans before calls s.calls e f)

  pub Holds-then :
      {A B : Type 0} (Q : List Request → A → Type 0) (R : List Request → B → Type 0) (t : Task A)
      (f : A → Task B) (calls : List Request)
      → Holds Q calls t
      → ((now : List Request) (a : A) → Q now a → Holds R now (f a))
      → Holds R calls (t >>= f)
  Holds-then Q R (returns a) f calls h go = go calls a h
  Holds-then Q R (does m k) f calls h go = λ s e sound.
      let (good, rest) = h s e sound in (good, Holds-then Q R (k (m s).0) f (m s).1.calls rest go)

  lookup_gate-Good : (w : Text) (s : State) → IsSound x world s → Good (lookup_gate w) s
  lookup_gate-Good w s h = (h, Extends-refl s.calls)

  call-Good : (r : Request) (s : State) → IsSound x world s → Good (call world r) s
  unfolding call
  call-Good r s h = (call-Keeps x world r s h, (r ∷ [], refl))

  pub seconds_left-Good : (w : Text) (s : State) → IsSound x world s → Good (seconds_left world w) s
  unfolding seconds_left
  seconds_left-Good w s h = (
    seconds_left-Keeps x world w s h,
    Extends-same (count_down-calls x world w (lookup w s.gate_left) s),
  )

  pub forget_gate-Good : (w : Text) (s : State) → IsSound x world s → Good (forget_gate w) s
  unfolding forget_gate
  forget_gate-Good w s h = (forget_gate-Keeps x world w s h, Extends-refl s.calls)

  store_gate-Good :
      (w : Text) (a : Answer) (s : State)
      → Came x world s.calls (w, gate_of x a)
      → IsSound x world s
      → Good (store_gate x world w a) s
  unfolding store_gate keep_gate
  store_gate-Good w a s came h =
      let (_, s1) = keep_gate w (gate_of x a) s in
      (
        note_left-IsSound x world w a (parse_int a.seconds_left) s1
            (kept-after x world w (gate_of x a) s)
            (keep_gate-IsSound x world w (gate_of x a) s came h),
        Extends-same (note_left-calls x world w a (parse_int a.seconds_left) s1),
      )

  -- The gate that an answer gives comes from the call that was just made.
  asked-Came :
      (w : Text) (s : State)
      → Came x world
          (call world (gate_request w) s).1.calls
          (w, gate_of x (call world (gate_request w) s).0)
  unfolding call
  asked-Came w s = (s.calls, gate_request w, [], refl, inl (refl, refl))

  fetch-Holds : (w : Text) (calls : List Request) → Holds Any calls (fetch_task x world w)
  fetch-Holds w calls = λ s e h. (
    call-Good (gate_request w) s h,
    λ s' later h'.
        let came =
          Came-later (w, gate_of x (call world (gate_request w) s).0) (asked-Came w s) later in
        (store_gate-Good w (call world (gate_request w) s).0 s' came h', tt),
  )

  kept-Holds :
      (w : Text) (fresh : Bool) (kept : Option (Option Fields)) (calls : List Request)
      → Holds Any calls (kept_task x world w fresh kept)
  kept-Holds w fresh none calls = fetch-Holds w calls
  kept-Holds w true (some g) calls = fetch-Holds w calls
  kept-Holds w false (some g) calls = tt

  pub gate-Holds :
      (w : Text) (fresh : Bool) (calls : List Request) → Holds Any calls (gate_task x world w fresh)
  gate-Holds w fresh calls =
      λ s e h. (lookup_gate-Good w s h, kept-Holds w fresh (lookup w s.gates) s.calls)

  pub left-Holds : (w : Text) (calls : List Request) → Holds Any calls (left_task x world w)
  left-Holds w calls = λ s e h. (seconds_left-Good w s h, tt)

  plan_once-Holds : (w : Text) (calls : List Request) → Holds Any calls (plan_once_task x world w)
  plan_once-Holds w calls =
      Holds-then Any Any (gate_task x world w false) _ calls (gate-Holds w false calls)
        (λ now g h. λ s e sound. (seconds_left-Good w s sound, tt))

  plan_again-Holds :
      (w : Text) (plan : Plan) (again : Bool) (calls : List Request)
      → Holds Any calls (plan_again_task x world w plan again)
  plan_again-Holds w plan true calls =
      λ s e h. (forget_gate-Good w s h, plan_once-Holds w (forget_gate w s).1.calls)
  plan_again-Holds w plan false calls = tt

  pub plan_to-Holds : (w : Text) (calls : List Request) → Holds Any calls (plan_to_task x world w)
  plan_to-Holds w calls = λ s e h. (
    lookup_gate-Good w s h,
    Holds-then Any Any (plan_once_task x world w) _ s.calls (plan_once-Holds w s.calls)
        (λ now plan h.
          plan_again-Holds w plan (is_some plan.stop && is_some (lookup w s.gates)) now),
  )
