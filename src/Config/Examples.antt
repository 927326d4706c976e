-- ===== src/Config/Examples.antt =====
-- A clock that takes ten nanoseconds for a reading, and a timer that needs 2500 nanoseconds.
use rtmb.Config.Disk.Whole.{read_blocks-setup_file_for_read}
use rtmb.Config.Disk.{mul_int, open_file_for_read, read_blocks, setup_file_for_read, File}
use rtmb.Table.{max_tests, ResultTable}
use rtmb.Config.Readings.{Readings}
use rtmb.Clock.{TimeSpec, Clock}
use rtmb.Params.{RtVals, InputParams, BenchmarkTest}
use rtmb.Base.Int.{ℤ, pos}
use rtmb.Base.{ℕ, ◌≡◌, ok, ◌∷◌, ◌*◌, replicate, [], List, false, some, none, refl}
use rtmb.Double.Whole.{whole}

abbrev steady : Clock
steady n = some (record { tv_sec = pos 7; tv_nsec = pos (n * 10) })

abbrev steady_times : List ℤ
steady_times = pos 10 ∷ pos 10 ∷ []

abbrev vals : RtVals ℤ
vals = record { acceptable_percentage = pos 90; range_percentage = pos 10; multiplier = pos 1 }

abbrev params : InputParams ℤ
params = record { tests = []; hrt = vals; srt = vals; grt = vals }

abbrev clock_test : BenchmarkTest ℤ
clock_test = record {
  name = [];
  desc = [];
  iterations = pos 2;
  config_test = pos 1;
  threshold = pos 3;
  reference_score = pos 5;
}

abbrev table : ResultTable ℤ
table = replicate max_tests (record { fbmt = none; bm_test = none; valid = false })

abbrev unset : TimeSpec
unset = record { tv_sec = pos 0; tv_nsec = pos 0 }

abbrev disk_file : File
disk_file = record { contents = 1 ∷ 2 ∷ 3 ∷ []; place = 3 }

read_blocks-setup_file_for_read_example :
    let blocks : List (List ℕ) = replicate 2 (replicate 4 0) in
    let whole : File = record { contents = replicate 8 0; place = 8 } in
    (read_blocks 2 4 (open_file_for_read (setup_file_for_read 8 1 disk_file)) ≡ ok (blocks, whole))
    × (read_blocks 2 4 (open_file_for_read whole) ≡ ok (blocks, whole))
unfolding mul_int
read_blocks-setup_file_for_read_example = read_blocks-setup_file_for_read 4 2 8 disk_file refl
