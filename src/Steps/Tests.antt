-- ===== src/Steps/Tests.antt =====
-- The theorem of Steps for a new client that sends to an inbox which asks for work, and then closes
-- another.
use aamio_go.Prelude.{[], true, false, none, codes, refl}
use aamio_go.Toy.{toy}
use aamio_go.Client.Session.{State}
use aamio_go.Client.Session.Tests.{world, start, start-IsSound}
use aamio_go.Client.Session.Send.{send}
use aamio_go.Client.Session.Invariant.{IsSound}
use aamio_go.Client.Message.Tests.{address}
use aamio_go.Client.Requests.{close_thread}
use aamio_go.Steps.{Reach, here, next, sends, closes, Reach-IsSound}

abbrev after_send : State
after_send =
    (send 9 toy world none [] address (codes "hi")
      (record { unsigned = true; seal_to = []; json = false }) start).1

abbrev after_close : State
after_close = (close_thread toy world address (codes "id") after_send).1

reached : Reach 9 toy world none start after_close
reached =
    next
      (next here (
        sends [] address (codes "hi") (record { unsigned = true; seal_to = []; json = false })
          refl))
      (closes address (codes "id") refl)

Reach-IsSound_example : IsSound toy world after_close
Reach-IsSound_example = Reach-IsSound 9 toy world none reached start-IsSound
