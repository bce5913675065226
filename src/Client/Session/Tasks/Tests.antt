-- ===== src/Client/Session/Tasks/Tests.antt =====
-- A send, a plan and a ForgetGate of one address, whose parts come up in turn.
use aamio_go.Prelude.{List, [], ◌∷◌, ◌++◌, none, true, false, codes}
use aamio_go.Toy.{toy}
use aamio_go.Client.Session.Tests.{world, start, start-IsSound}
use aamio_go.Client.Session.Invariant.{IsSound}
use aamio_go.Client.Message.Tests.{address}
use aamio_go.Client.Session.Tasks.Pool.{Use, sends, plans, forgets, Move, starts, runs, run}
use aamio_go.Client.Session.Tasks.Interleaved.{interleaved-IsSound}

abbrev sending : Use
sending =
    sends none [] address (codes "hi") (record { unsigned = true; seal_to = []; json = false })

abbrev begun : List Move
begun = starts sending ∷ starts (plans address) ∷ runs 0 ∷ runs 1 ∷ runs 0 ∷ runs 1 ∷ runs 0 ∷ []

abbrev round : List Move
round = runs 2 ∷ runs 0 ∷ runs 2 ∷ runs 1 ∷ []

abbrev ended : List Move
ended = round ++ round ++ starts (forgets address) ∷ runs 3 ∷ round ++ round ++ round

interleaved-IsSound_example :
    IsSound toy world (run toy world 9 (begun ++ starts (plans address) ∷ ended) [] start).1
interleaved-IsSound_example =
    interleaved-IsSound toy world 9 (begun ++ starts (plans address) ∷ ended) start start-IsSound
