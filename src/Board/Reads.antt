-- ===== src/Board/Reads.antt =====
-- What the reads of board.go ask for, and what they take from an answer.
use aamio_go.Prelude.{
  ℤ, Bool, true, false, ◌&&◌, not, List, [], Option, none, some, Text, codes, text_eq, text_eq_iff,
  is_empty, ◌==◌, ◌≡◌, ◌≢◌, ap, refl, ◌⊎◌, inl, inr, if◌then◌else◌, arith, Bool-cases,
}
use aamio_go.Errors.{Result, ok, err, ◌>>=◌}
use aamio_go.Json.{Json, Fields, null, bool, number, float, object, int, int64, string, array, get}
use aamio_go.Json.Laws.{get-put}
use aamio_go.Json.Number.{parse_int}
use aamio_go.Address.{scope_address}
use aamio_go.Client.Http.{Answer}
use aamio_go.Client.Read.{cap_wait}
use aamio_go.Board.{
  FindOptions, put_if, items, has_any, is_positive, find_fields, next_of, find_body, find_answer,
  scope_named, in_scope, find_in_scope,
}

-- What a read of a scope may hand over: what the answer that names the scope says, or nothing, with
-- the cursor of the caller.
abbrev pub Scoped : Text → FindOptions → Answer → List Fields → ℤ → Type 0
Scoped address o a posts next =
    ((a.status ≡ 200) × (scope_named a.body ≡ address)) ⊎ ((posts ≡ []) × (next ≡ o.after))

find_body-false : (after : ℤ) (body : Option Fields) → find_body after false body ≡ ([], after)
find_body-false after none = refl
find_body-false after (some body) = refl

in_scope-Scoped :
    (o : FindOptions) (a : Answer) (address : Text) (posts : List Fields) (next : ℤ)
    → in_scope o a address ≡ ok (posts, next)
    → Scoped address o a posts next
unfolding find_answer
in_scope-Scoped o a address posts next h = elim (Bool-cases (a.status == 200)) [
  | inl e ↦ inl (ground (arith, text_eq_iff (scope_named a.body) address))
  | inr e ↦ inr (ground (arith, find_body-false o.after a.body))
]

-- FindInScope hands over posts, and moves the cursor, only when the answer is a 200 that names the
-- address of the scope whose key was given.
pub find_in_scope-Scoped :
    (key : Text) (o : FindOptions) (a : Answer) (posts : List Fields) (next : ℤ)
    → find_in_scope key o a ≡ ok (posts, next)
    → (address : Text) × (scope_address key ≡ ok address) × Scoped address o a posts next
unfolding find_in_scope
find_in_scope-Scoped key o a posts next = go (scope_address key) refl
  where
    go :
        (r : Result Text)
        → scope_address key ≡ r
        → (r >>= λ address. in_scope o a address) ≡ ok (posts, next)
        → (address : Text) × (scope_address key ≡ ok address) × Scoped address o a posts next
    go (ok address) e h = (address, e, in_scope-Scoped o a address posts next h)
    go (err _) e h = absurd cc

-- The text of a number.
abbrev digits_of : Option Json → Text
digits_of (some (number s)) = s
digits_of _ = []

-- After a `next` that is a number the cursor is what Int64 gives for it, and after any other, or
-- none, it is that of the caller.
abbrev pub MovesTo : ℤ → Option Json → ℤ → Type 0
MovesTo after v next =
    ((s : Text) → v ≡ some (number s) → next ≡ (parse_int s).0)
    × (((s : Text) → v ≢ some (number s)) → next ≡ after)

next_of-MovesTo : (after : ℤ) (v : Option Json) → MovesTo after v (next_of after v)
next_of-MovesTo after none = ((λ s e. absurd cc), λ h. refl)
next_of-MovesTo after (some (number s)) = (λ t e. same_number s t e, λ h. absurd (h s refl))
  where
    same_number :
        (s t : Text)
        → ◌≡◌ {A = Option Json} (some (number s)) (some (number t))
        → (parse_int s).0 ≡ (parse_int t).0
    same_number s t e = ap (λ v. (parse_int (digits_of v)).0) e
next_of-MovesTo after (some null) = ((λ s e. absurd cc), λ h. refl)
next_of-MovesTo after (some (bool b)) = ((λ s e. absurd cc), λ h. refl)
next_of-MovesTo after (some (int n)) = ((λ s e. absurd cc), λ h. refl)
next_of-MovesTo after (some (int64 n)) = ((λ s e. absurd cc), λ h. refl)
next_of-MovesTo after (some (float f)) = ((λ s e. absurd cc), λ h. refl)
next_of-MovesTo after (some (string s)) = ((λ s e. absurd cc), λ h. refl)
next_of-MovesTo after (some (array l)) = ((λ s e. absurd cc), λ h. refl)
next_of-MovesTo after (some (object m)) = ((λ s e. absurd cc), λ h. refl)

abbrev pub Cursor : ℤ → Bool → Option Fields → ℤ → Type 0
Cursor after true (some body) next = MovesTo after (get (codes "next") body) next
Cursor after true none next = next ≡ after
Cursor after false body next = next ≡ after

find_body-Cursor :
    (after : ℤ) (good : Bool) (body : Option Fields)
    → Cursor after good body (find_body after good body).1
find_body-Cursor after true (some body) = next_of-MovesTo after (get (codes "next") body)
find_body-Cursor after true none = refl
find_body-Cursor after false none = refl
find_body-Cursor after false (some body) = refl

-- The cursor after a find is what Int64 gives for the number that stands as next in an answer 200
-- with an object, also when that number is no int64; when no number stands there, or the answer is
-- no such one, it is that of the caller.
pub find_answer-Cursor :
    (o : FindOptions) (a : Answer) → Cursor o.after (a.status == 200) a.body (find_answer o a).1
unfolding find_answer
find_answer-Cursor o a = find_body-Cursor o.after (a.status == 200) a.body

get-put_if :
    (b : Bool) (k j : Text) (v : Json) (m : Fields)
    → get j (put_if b k v m) ≡ (if text_eq j k && b then some v else get j m)
get-put_if b k j v m = ground (arith, get-put k j v m)

abbrev given : Bool → Json → Option Json
given b v = if b then some v else none

-- A find asks for what its options hold: `after` always, and each other option when it is not
-- empty or is above 0, a wait of more than 25 seconds being one of 25.
pub find_fields_lem :
    (o : FindOptions) (key : Text)
    → let m = find_fields o key in
      (get (codes "after") m ≡ some (int64 o.after))
      × (get (codes "scope_key") m ≡ given (not (is_empty key)) (string key))
      × (get (codes "kind") m ≡ given (not (is_empty o.kind)) (string o.kind))
      × (get (codes "tags") m ≡ given (has_any o.tags) (array (items o.tags)))
      × (get (codes "lang") m ≡ given (not (is_empty o.lang)) (string o.lang))
      × (get (codes "key") m ≡ given (not (is_empty o.key)) (string o.key))
      × (get (codes "wait") m ≡ given (is_positive o.wait) (int (cap_wait o.wait)))
      × (get (codes "min_work_bits") m ≡ given (is_positive o.min_work_bits) (int o.min_work_bits))
unfolding find_fields text_eq get
find_fields_lem o key = (
  simp (get-put_if, get-put),
  simp (get-put_if, get-put),
  simp (get-put_if, get-put),
  simp (get-put_if, get-put),
  simp (get-put_if, get-put),
  simp (get-put_if, get-put),
  simp (get-put_if, get-put),
  simp (get-put_if, get-put),
)
