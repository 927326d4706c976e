-- ===== src/Barrier/Examples.antt =====
-- Runs of one thread and of two.
use rtmb.Barrier.Invariant.{Reach-all_arrived}
use rtmb.Barrier.Stuck.{missed-IsEnd, Reach-progress, missed-Reach, missed, IsEnd}
use rtmb.Barrier.{Step, Crew, start, Reach, begin, finished, asleep}
use rtmb.Base.{arith, ◌⊎◌, ◌≡◌, ◌+◌, ◌<◌, false}

Reach-all_arrived_example :
    (0 < (missed 2).awake + (missed 2).done → (missed 2).ready ≡ 0)
    × ((missed 2).counter ≡ (missed 2).waiting + (missed 2).awake)
    × ((missed 2).parent ≡ finished → (missed 2).done ≡ 2)
Reach-all_arrived_example = Reach-all_arrived 2 (missed 2) (missed-Reach 2 (omega arith))

Reach-progress_example : IsEnd 2 (start 2) ⊎ ((s' : Crew) × Step false 2 (start 2) s')
Reach-progress_example = Reach-progress 2 (start 2) begin

missed-IsEnd_example :
    Reach false 2 (missed 2)
    × ((missed 2).done ≡ 2)
    × ((missed 2).parent ≡ asleep)
    × ((s' : Crew) → ¬ Step false 2 (missed 2) s')
missed-IsEnd_example = missed-IsEnd 2 (omega arith)
