-- ===== src/Client/Requests/Opening.antt =====
-- What Open of client.go asks for, and the thread that it gives.
use aamio_go.Prelude.{
  ℕ, ◌<◌, ℤ, true, List, [], ◌∷◌, ◌++◌, Option, some, Text, codes, ◌≡◌, refl, sym, ap, ◌∙◌, arith,
  length, lookup, text_eq,
}
use aamio_go.Errors.{Result, ok, err}
use aamio_go.Json.{Fields}
use aamio_go.External.{External}
use aamio_go.Address.{is_id, is_w, new_id, w}
use aamio_go.Address.Shapes.{new_id_length-is_id, w-is_w}
use aamio_go.Keys.{result_or_empty}
use aamio_go.Client.Http.{Answer}
use aamio_go.Client.Allow.{normalize_allow}
use aamio_go.Client.Read.{Thread}
use aamio_go.Client.Session.{World, State, call}
use aamio_go.Client.Requests.{open_request, opened, gate_body, open_thread, result_then}

-- A source of random numbers below the 36 characters of a read key.
abbrev pub Draws : (ℕ → Option ℕ) → Type 0
Draws draw = (j : ℕ) → (v : ℕ) × (draw j ≡ some v) × (v < 36)

new_id-is_id :
    (draw : ℕ → Option ℕ) (id : Text) → Draws draw → new_id draw ≡ ok id → is_id id ≡ true
unfolding new_id
new_id-is_id draw id h e =
    let (made, same, _, good) = (new_id_length-is_id draw 26 h).0 (omega arith, omega arith) in
    ground arith

module _ (x : External) (world : World) (draw : ℕ → Option ℕ) (ttl : ℤ) (allow : List Text) where
  -- A thread with a key of the right shape, the address of that key and the normalized allowlist,
  -- from one request for that address. The key is in its X-Read header.
  abbrev pub Opened : State → Thread × Answer → State → Type 0
  Opened s (t, a) s' =
      (is_id t.id ≡ true)
      × (w t.id ≡ ok t.w)
      × (is_w t.w ≡ true)
      × (t.allow ≡ normalize_allow allow)
      × ((body : Option Text) × let r = open_request t.id ttl t.allow body in
            (s'.calls ≡ s.calls ++ r ∷ [])
            × (a ≡ world.respond (length s.calls) r)
            × (r.path ≡ b'/' ∷ t.w)
            × (lookup (codes "X-Read") r.headers ≡ some t.id))

  -- An opening that fails before the request leaves everything as it was.
  abbrev pub Ends : State → Result (Thread × Answer) → State → Type 0
  Ends s (ok inbox) s' = Opened s inbox s'
  Ends s (err e) s' = s' ≡ s

  opened-Ends :
      (id : Text) (body : Option Text) (s : State)
      → is_id id ≡ true
      → let end = opened x world id ttl (normalize_allow allow) body s in Ends s end.0 end.1
  unfolding call open_request lookup text_eq
  opened-Ends id body s h =
      let (address, e, good) = (w-is_w id).0 h in
      let same : result_or_empty (w id) ≡ address = ap result_or_empty e in
      (h, e ∙ ap ok (sym same), rw same good, refl, (body, (refl, refl, refl, refl)))

  with_id-Ends :
      (gate : Option Fields) (id : Text) (s : State)
      → is_id id ≡ true
      → let end =
          (result_then
              (gate_body x world gate)
              λ body. opened x world id ttl (normalize_allow allow) body)
            s in
        Ends s end.0 end.1
  with_id-Ends gate id s h = go (gate_body x world gate)
    where
      go :
          (r : Result (Option Text))
          → let end =
              (result_then r λ body. opened x world id ttl (normalize_allow allow) body) s in
            Ends s end.0 end.1
      go (ok body) = opened-Ends id body s h
      go (err e) = refl

  -- Open makes one request at most, and none when it fails. The thread that it gives has a key of
  -- the right shape, the address of that key and the normalized allowlist; the request goes to that
  -- address with the key in its X-Read header, and the answer is the one to it.
  pub open_thread-Ends :
      (gate : Option Fields) (s : State)
      → Draws draw
      → let (r, s') = open_thread x world draw ttl allow gate s in Ends s r s'
  unfolding open_thread
  open_thread-Ends gate s draws = go (new_id draw) refl
    where
      go :
          (r : Result Text)
          → new_id draw ≡ r
          → let end =
              (result_then r λ id.
                  result_then
                    (gate_body x world gate)
                    λ body. opened x world id ttl (normalize_allow allow) body)
                s in
            Ends s end.0 end.1
      go (ok id) e = with_id-Ends gate id s (new_id-is_id draw id draws e)
      go (err e) _ = refl
