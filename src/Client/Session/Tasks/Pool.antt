-- ===== src/Client/Session/Tasks/Pool.antt =====
-- Any number of goroutines over one Client of client.go: each runs its call in parts, and the next
-- move is any one's next part, or a new call.
use aamio_go.Prelude.{ℕ, zero, suc, Bool, List, [], ◌∷◌, ◌++◌, Option, Text, ◌≡◌, refl}
use aamio_go.Errors.{Result}
use aamio_go.Json.{Fields}
use aamio_go.External.{External}
use aamio_go.Keys.{Keys}
use aamio_go.Gate.Plan.{Plan}
use aamio_go.Client.Session.{World, State, M, gate, seconds_left, forget_gate, plan_to}
use aamio_go.Client.Session.Letter.{SendOptions}
use aamio_go.Client.Session.Send.{Sent, send}
use aamio_go.Client.Session.Tasks.{
  Task, returns, does, alone, atomic, gate_task, plan_to_task, send_task,
}
use aamio_go.Client.Session.Tasks.Alone.{alone-gate, alone-plan_to, alone-send}

-- The calls that read or change what the mutex guards.
pub data Use : Type 0 where
  reads_gate : Text → Bool → Use
  asks_time : Text → Use
  forgets : Text → Use
  plans : Text → Use
  sends : Option Keys → Text → Text → Text → SendOptions → Use

abbrev pub Told : Use → Type 0
Told (reads_gate w fresh) = Option Fields
Told (asks_time w) = Option ℕ
Told (forgets w) = Unit
Told (plans w) = Plan
Told (sends keys random w body opts) = Result Sent

-- A goroutine is a task, whatever it returns.
abbrev pub Pool : Type 1
Pool = List ((A : Type 0) × Task A)

pub data Move : Type 0 where
  starts : Use → Move
  runs : ℕ → Move

module _ (x : External) (world : World) (fuel : ℕ) where
  unfoldable pub task_of : (u : Use) → Task (Told u)
  task_of (reads_gate w fresh) = gate_task x world w fresh
  task_of (asks_time w) = atomic (seconds_left world w)
  task_of (forgets w) = atomic (forget_gate w)
  task_of (plans w) = plan_to_task x world w
  task_of (sends keys random w body opts) = send_task x world fuel keys random w body opts

  abbrev pub call_of : (u : Use) → M (Told u)
  call_of (reads_gate w fresh) = gate x world w fresh
  call_of (asks_time w) = seconds_left world w
  call_of (forgets w) = forget_gate w
  call_of (plans w) = plan_to x world w
  call_of (sends keys random w body opts) = send fuel x world keys random w body opts

  -- Each call in its parts, with nothing between them, tells and leaves what it does as a whole.
  pub alone-task_of : (u : Use) (s : State) → alone (task_of u) s ≡ call_of u s
  unfolding task_of
  alone-task_of (reads_gate w fresh) s = alone-gate x world w fresh s
  alone-task_of (asks_time w) s = refl
  alone-task_of (forgets w) s = refl
  alone-task_of (plans w) s = alone-plan_to x world w s
  alone-task_of (sends keys random w body opts) s =
      alone-send x world fuel keys random w body opts s

  -- The next part of the goroutine at an index; one that is over, or not there, does nothing.
  unfoldable pub run_part : ℕ → Pool → State → Pool × State
  run_part i [] s = ([], s)
  run_part zero ((A, returns a) ∷ rest) s = ((A, returns a) ∷ rest, s)
  run_part zero ((A, does m k) ∷ rest) s = let (b, s') = m s in ((A, k b) ∷ rest, s')
  run_part (suc i) (g ∷ rest) s = let (rest', s') = run_part i rest s in (g ∷ rest', s')

  unfoldable pub run_move : Move → Pool → State → Pool × State
  unfolding run_part task_of
  run_move (starts u) pool s = (pool ++ (Told u, task_of u) ∷ [], s)
  run_move (runs i) pool s = run_part i pool s

  unfoldable pub run : List Move → Pool → State → Pool × State
  unfolding run_move
  run [] pool s = (pool, s)
  run (move ∷ moves) pool s = let (pool', s') = run_move move pool s in run moves pool' s'
