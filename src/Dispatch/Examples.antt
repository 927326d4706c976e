-- ===== src/Dispatch/Examples.antt =====
-- One iteration of two rounds: the sender wakes early, the receiver gets ready, and
-- the sender signals.
use rtmb.Dispatch.Turns.{duo}
use rtmb.Dispatch.Heard.{take_events-IsHeard, IsHeard}
use rtmb.Dispatch.Ending.{take_events-Leads, Leads}
use rtmb.Dispatch.Early.{IsStuck, begin-IsStuck}
use rtmb.Dispatch.{
  Thread, take_turns, happen, sender_early, waking, listening, free, begin, Event, turn_of,
  ready_early, take_events, sender, receiver,
}
use rtmb.Base.{◌≡◌, List, false, refl, [], ◌∷◌}

abbrev opening : List Event
opening =
    turn_of sender
    ∷ ready_early
    ∷ turn_of sender
    ∷ turn_of receiver
    ∷ turn_of receiver
    ∷ turn_of receiver
    ∷ turn_of sender
    ∷ turn_of sender
    ∷ turn_of sender
    ∷ []

opening_lem : take_events 2 opening (begin 1) ≡ duo free false listening 1 2 waking 1 2
opening_lem = refl

take_events-IsHeard_example : IsHeard (take_events 2 opening (begin 1))
take_events-IsHeard_example = take_events-IsHeard 1 1 opening refl

take_events-Leads_example : Leads 2 (take_events 2 opening (begin 1))
take_events-Leads_example = take_events-Leads 1 1 opening refl

begin-IsStuck_example :
    (earlier : List Thread) × (later : List Thread) × IsStuck 2
      (take_turns 2 later (happen 2 sender_early (take_turns 2 earlier (begin 1))))
begin-IsStuck_example = begin-IsStuck 0
