-- ===== src/Client/Read/Limits.antt =====
-- The cursor of a read, and what a read asks for.
use aamio_go.Prelude.{
  ℕ, ℤ, ◌≡◌, ◌≢◌, ◌⊎◌, inl, inr, refl, Bool, true, false, Option, none, some, Text, ◌==◌, arith,
  codes, Bool-cases, sym, ap,
}
use native.Mathlib.Decide.{ℕ_discrete}
use aamio_go.Json.{Fields, get, integer}
use aamio_go.External.{External}
use aamio_go.Keys.{Keys}
use aamio_go.Client.Http.{Answer}
use aamio_go.Client.Read.{next_of, read_body, read_answer}

ℤ-discrete : Discrete ℤ
ℤ-discrete = hlevel ℕ_discrete

module _ (x : External) (keys : Option Keys) (w : Text) (after : ℤ) where
  -- A service cursor that is an exact int64.
  abbrev pub Cursor : Answer → ℤ → Type 0
  Cursor a n =
      (body : Fields) × (a.status ≡ 200)
      × (a.body ≡ some body)
      × (integer (get (codes "next") body) ≡ (n, true))

  next_of-moved : (p : ℤ × Bool) (n : ℤ) → next_of x keys w after p ≡ n → n ≢ after → p ≡ (n, true)
  next_of-moved (m, true) n h ne = ap (λ k. (k, true)) h
  next_of-moved (m, false) n h ne = absurd (ne (sym h))

  body_cursor :
      (status : ℕ) (o : Option Fields) (n : ℤ)
      → (read_body x keys w after status o).1 ≡ n
      → n ≢ after
      → (body : Fields) × (status ≡ 200)
        × (o ≡ some body)
        × (integer (get (codes "next") body) ≡ (n, true))
  unfolding read_body
  body_cursor status none n h ne = absurd (ne (sym h))
  body_cursor status (some body) n h ne = elim (Bool-cases (status == 200)) [
    | inl ok ↦ (body, ground arith, refl, next_of-moved _ n (rw ok at h) ne)
    | inr bad ↦ absurd (ne (sym (rw bad at h)))
  ]

  -- A read ends at the `next` of an answer 200 whose body is an object and whose `next` is an exact
  -- int64, and otherwise where it was: after a refusal, no answer at all or a malformed cursor.
  pub read_answer-Cursor :
      (a : Answer) (n : ℤ)
      → (Cursor a n → (read_answer x keys w after a).1 ≡ n)
        × ((read_answer x keys w after a).1 ≡ n → (n ≡ after) ⊎ Cursor a n)
  unfolding read_answer read_body
  read_answer-Cursor a n = (
    λ c. given c.0 c.1 c.2 c.3,
    λ h. elim (ℤ-discrete n after) [
      | yes e ↦ inl e
      | no ne ↦ inr (body_cursor a.status a.body n h ne)
    ],
  )
    where
      given :
          (body : Fields)
          → a.status ≡ 200
          → a.body ≡ some body
          → integer (get (codes "next") body) ≡ (n, true)
          → (read_body x keys w after a.status a.body).1 ≡ n
      given body s b i = simp (s, b, i)
