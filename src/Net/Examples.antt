-- ===== src/Net/Examples.antt =====
-- A message of five bytes over a connection that cuts it twice and is interrupted once.
use rtmb.Double.Whole.{whole}
use rtmb.Net.{msg_alloc_init}
use rtmb.Config.Readings.{Readings}
use rtmb.Clock.{Clock}
use rtmb.Base.Int.{ℤ, pos}
use rtmb.Net.Setup.{prepare, Left, ClientSetup, prepare-Left}
use rtmb.Net.Pipe.{Pipe}
use rtmb.Base.{◌≡◌, ◌*◌, ℕ, List, false, true, some, refl, [], ◌∷◌}

abbrev quiet : Pipe
quiet = record { to_client = []; to_server = []; cuts = 2 ∷ 0 ∷ 1 ∷ [] }

abbrev greeting : List ℕ
greeting = 97 ∷ 98 ∷ 99 ∷ 100 ∷ 0 ∷ []

greeting_lem : msg_alloc_init 5 ≡ greeting
unfolding msg_alloc_init
greeting_lem = refl

abbrev steady : Clock
steady n = some (record { tv_sec = pos 7; tv_nsec = pos (n * 10) })

abbrev steady_times : List ℤ
steady_times = pos 10 ∷ pos 10 ∷ []

abbrev lost_address : ClientSetup
lost_address = record {
  param_set = true;
  thread_made = true;
  address_found = false;
  socket_fd = pos 5;
  timeout_set = true;
}

prepare-Left_example : Left lost_address (prepare lost_address)
prepare-Left_example = prepare-Left lost_address refl
