-- ===== src/Client/Session/Notes/Tests.antt =====
-- The refinement at a client that asks, plans, waits and forgets, with two addresses.
use aamio_go.Prelude.{[], ◌∷◌, codes, true, false, List, ◌≡◌}
use aamio_go.Toy.{toy}
use aamio_go.Client.Session.Notes.{
  Ask, the_gate, the_time, to_forget, the_plan, client_tells, notebook_tells, in_turn, notes_of,
}
use aamio_go.Client.Session.Notes.Refines.{client_tells-notebook}
use aamio_go.Client.Session.Tests.{world, start}

abbrev asks : List Ask
asks =
    the_gate (codes "a") false
    ∷ the_plan (codes "b")
    ∷ the_time (codes "a")
    ∷ to_forget (codes "a")
    ∷ the_gate (codes "b") true
    ∷ the_plan (codes "a")
    ∷ []

client_tells-notebook_example :
    ((in_turn (client_tells toy world) asks start).0
      ≡ (in_turn (notebook_tells toy world) asks (notes_of toy world start)).0)
    × (notes_of toy world (in_turn (client_tells toy world) asks start).1
        ≡ (in_turn (notebook_tells toy world) asks (notes_of toy world start)).1)
client_tells-notebook_example = client_tells-notebook toy world asks start
