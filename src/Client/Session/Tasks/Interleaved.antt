-- ===== src/Client/Session/Tasks/Interleaved.antt =====
-- What the client keeps is sound however the parts of its calls are interleaved.
use aamio_go.Prelude.{ℕ, zero, suc, List, [], ◌∷◌, ◌++◌}
use aamio_go.External.{External}
use aamio_go.Client.Http.{Request}
use aamio_go.Client.Session.{World, State}
use aamio_go.Client.Session.Invariant.{IsSound}
use aamio_go.Client.Session.Tasks.{returns, does}
use aamio_go.Client.Session.Tasks.Holds.{
  Extends, Extends-refl, Holds, Holds-later, Any, gate-Holds, seconds_left-Good, forget_gate-Good,
  plan_to-Holds,
}
use aamio_go.Client.Session.Tasks.Sends.{send-Holds}
use aamio_go.Client.Session.Tasks.Pool.{
  Use, reads_gate, asks_time, forgets, plans, sends, Told, Pool, Move, starts, runs, task_of,
  run_part, run_move, run,
}

module _ (x : External) (world : World) (fuel : ℕ) where
  task_of-Holds :
      (u : Use) (calls : List Request) → Holds x world Any calls (task_of x world fuel u)
  unfolding task_of
  task_of-Holds (reads_gate w fresh) calls = gate-Holds x world w fresh calls
  task_of-Holds (asks_time w) calls = λ s _ h. (seconds_left-Good x world w s h, tt)
  task_of-Holds (forgets w) calls = λ s _ h. (forget_gate-Good x world w s h, tt)
  task_of-Holds (plans w) calls = plan_to-Holds x world w calls
  task_of-Holds (sends keys random w body opts) calls =
      send-Holds x world fuel keys random w body opts calls

  -- Every goroutine holds from the calls that were made.
  abbrev AllHold : List Request → Pool → Type 0
  AllHold calls [] = Unit
  AllHold calls ((A, t) ∷ rest) = Holds x world Any calls t × AllHold calls rest

  AllHold-later :
      (before calls : List Request) (pool : Pool)
      → AllHold before pool
      → Extends before calls
      → AllHold calls pool
  AllHold-later before calls [] h e = tt
  AllHold-later before calls ((A, t) ∷ rest) (h, hs) e =
      (Holds-later x world before calls t h e, AllHold-later before calls rest hs e)

  AllHold-append :
      (calls : List Request) (pool : Pool) (u : Use)
      → AllHold calls pool
      → AllHold calls (pool ++ (Told u, task_of x world fuel u) ∷ [])
  AllHold-append calls [] u h = (task_of-Holds u calls, tt)
  AllHold-append calls ((A, t) ∷ rest) u (h, hs) = (h, AllHold-append calls rest u hs)

  -- A part that runs keeps what holds of the client, and the others still hold.
  run_part-Keeps :
      (i : ℕ) (pool : Pool) (s : State)
      → IsSound x world s
      → AllHold s.calls pool
      → let (pool', s') = run_part x world fuel i pool s in
        IsSound x world s' × Extends s.calls s'.calls × AllHold s'.calls pool'
  unfolding run_part
  run_part-Keeps i [] s h hs = (h, Extends-refl s.calls, tt)
  run_part-Keeps zero ((A, returns a) ∷ rest) s h hs = (h, Extends-refl s.calls, hs)
  run_part-Keeps zero ((A, does m k) ∷ rest) s h (t, hs) =
      let ((sound, extends), then_on) = t s (Extends-refl s.calls) h in
      (sound, extends, (then_on, AllHold-later s.calls (m s).1.calls rest hs extends))
  run_part-Keeps (suc i) ((A, t) ∷ rest) s h (ht, hs) =
      let (sound, extends, others) = run_part-Keeps i rest s h hs in
      let later =
        Holds-later x world s.calls (run_part x world fuel i rest s).1.calls t ht extends in
      (sound, extends, (later, others))

  run-IsSound :
      (moves : List Move) (pool : Pool) (s : State)
      → IsSound x world s
      → AllHold s.calls pool
      → IsSound x world (run x world fuel moves pool s).1
  unfolding run run_move
  run-IsSound [] pool s h hs = h
  run-IsSound (starts u ∷ moves) pool s h hs =
      run-IsSound moves (pool ++ (Told u, task_of x world fuel u) ∷ []) s h
        (AllHold-append s.calls pool u hs)
  run-IsSound (runs i ∷ moves) pool s h hs =
      let (sound, _, hold) = run_part-Keeps i pool s h hs in
      run-IsSound moves (run_part x world fuel i pool s).0 (run_part x world fuel i pool s).1 sound
        hold

  -- However the parts of any calls of Gate, SecondsLeft, ForgetGate, PlanTo and Send by any number
  -- of goroutines are interleaved, what the client keeps stays sound: every gate that is kept is
  -- one that the service answered, to a read of it or as a 428 to a post for that address, and no
  -- time is kept without a gate.
  pub interleaved-IsSound :
      (moves : List Move) (s : State)
      → IsSound x world s
      → IsSound x world (run x world fuel moves [] s).1
  interleaved-IsSound moves s h = run-IsSound moves [] s h tt
