-- ===== src/Config/Disk.antt =====
-- `disk_io_write_config` and `disk_io_read_config` of the files with these names in
-- rtmb_c/src/testcase/config_test, and rtmb_c/src/testcase/util/io_opern/disk_io_opern.c. A file is
-- its bytes and the place of the next access. The disk is never full and the file can be opened; the
-- size of a block, which `statvfs` tells, is an argument.
pub mod Whole
use rtmb.Score.{element_at}
use rtmb.Result.Create.{create_test_result}
use rtmb.Table.{get_min_exec_time, add_result_to_result_table2, ResultTable}
use rtmb.Config.{retry_fuel, judge, double_int, retry, add_difference, int_bound, Ended}
use rtmb.Result.{TestResults}
use rtmb.Params.{BenchmarkTest, InputParams, RtMode}
use rtmb.Clock.{get_cur_time, TimeSpec, Clock}
use rtmb.Double.{Double}
use rtmb.Base.Int.{pos_part, success, ℤ, pos}
use rtmb.Base.{
  ◌∷◌, ◌++◌, drop, take, replicate, length, [], assert_failed, require, arith_overflow, aborted,
  ◌*◌, fault, Option, ltb, leb, ok, if◌then◌else◌, List, ◌+◌, Run, ℕ, ◌>>=◌, ◌>>◌, some, none, suc,
  zero,
}

-- `DISKIO_WRITE_CONFIG` and `DISKIO_READ_CONFIG`
abbrev pub diskio_write_config : ℕ
diskio_write_config = 5

abbrev pub diskio_read_config : ℕ
diskio_read_config = 6

pub record File : Type 0 where
  pub contents : List ℕ
  pub place : ℕ

-- `fopen(disk_file, "w")` empties the file.
unfoldable pub open_file_for_write : File → File
open_file_for_write f = record { contents = []; place = 0 }

unfoldable pub open_file_for_read : File → File
open_file_for_read f = record f { place = 0 }

-- What `calloc`, or `malloc` and `memset`, give for the buffer.
abbrev pub cleared_buffer : ℕ → List ℕ
cleared_buffer block_size = replicate block_size 0

-- `fwrite` of a buffer: its bytes replace those from the place on, or lengthen the file.
abbrev pub fwrite : List ℕ → File → File
fwrite buf f = record {
  contents = take f.place f.contents ++ buf ++ drop (f.place + length buf) f.contents;
  place = f.place + length buf;
}

-- `fread` of a block, whose result is checked: what it stores, and the file behind it. If the file
-- has too few bytes, the program aborts.
abbrev pub fread : ℕ → File → Run (List ℕ × File)
fread block_size f =
    if leb (f.place + block_size) (length f.contents)
    then ok (take block_size (drop f.place f.contents), record f { place = f.place + block_size })
    else fault aborted

unfoldable pub write_blocks : ℕ → List ℕ → File → File
write_blocks zero buf f = f
write_blocks (suc loops) buf f = write_blocks loops buf (fwrite buf f)

-- What the buffer holds after each of the reads, and the file at their end.
unfoldable pub read_blocks : ℕ → ℕ → File → Run (List (List ℕ) × File)
read_blocks zero block_size f = ok ([], f)
read_blocks (suc loops) block_size f = do
  (buf, f) ← fread block_size f
  (bufs, f) ← read_blocks loops block_size f
  ok (buf ∷ bufs, f)

unfoldable pub setup_file_for_read : ℕ → ℕ → File → File
setup_file_for_read loops block_size f =
    write_blocks loops (cleared_buffer block_size) (open_file_for_write f)

-- `block_size * sub_iters`, of two numbers of type `int`.
unfoldable pub mul_int : ℕ → ℕ → Run ℕ
mul_int a b = if ltb (a * b) int_bound then ok (a * b) else fault arith_overflow

module _ {F : Type 0} ⦃d : Double F⦄ (qsort : (ℤ → ℤ → ℤ) → List ℤ → List ℤ) (clock : Clock)
    (block_size : ℕ) where
  -- The loop over the iterations of `disk_io_write`, which does not look at the result of
  -- `get_cur_time`.
  unfoldable pub write_loop :
      ℕ → ℕ → ℕ → TimeSpec → TimeSpec → File → TestResults F → Run (TestResults F × ℕ)
  write_loop zero sub_iters n start_time end_time f r = ok (r, n)
  write_loop (suc iters) sub_iters n start_time end_time f r =
      let start_time = (get_cur_time clock n start_time).1 in
      let f = write_blocks sub_iters (cleared_buffer block_size) (open_file_for_write f) in
      let end_time = (get_cur_time clock (n + 1) end_time).1 in
      add_difference qsort start_time end_time r >>= λ r.
      write_loop iters sub_iters (n + 2) start_time end_time f r

  -- The loop over the iterations of `disk_io_read`.
  unfoldable pub read_loop : ℕ → ℕ → ℕ → File → TestResults F → Run (TestResults F × ℕ)
  read_loop zero sub_iters n f r = ok (r, n)
  read_loop (suc iters) sub_iters n f r = elim (clock n) [
    | none ↦ fault aborted
    | some start_time ↦ (do
      (bufs, f) ← read_blocks sub_iters block_size (open_file_for_read f)
      elim (clock (n + 1)) [
        | none ↦ fault aborted
        | some end_time ↦ (do
          r ← add_difference qsort start_time end_time r
          read_loop iters sub_iters (n + 2) f r)
      ])
  ]

  -- The end of both tests' loops.
  unfoldable pub set_block_amount : Option (Ended F ℕ) → Run (TestResults F)
  set_block_amount none = fault aborted
  set_block_amount (some e) = do
    amount ← mul_int block_size e.amount
    ok (record (e.result) { opern_amount = pos amount })

  module _ (mode : RtMode) (params : InputParams F) where
    unfoldable pub disk_io_write :
        ResultTable F
        → BenchmarkTest F
        → ℕ
        → TimeSpec
        → TimeSpec
        → File
        → TestResults F
        → Run (TestResults F)
    disk_io_write table test n start_time end_time f r = do
      require assert_failed (ltb 0 block_size)
      clock_accuracy ← get_min_exec_time table
      e ←
          retry
            (λ sub_iters n r.
              write_loop (pos_part test.iterations) sub_iters n start_time end_time f r >>= λ m.
              ok (some m))
            double_int (judge clock_accuracy test.threshold mode params) retry_fuel 1 0 n r
      set_block_amount e

    unfoldable pub disk_io_read :
        ResultTable F → BenchmarkTest F → ℕ → File → TestResults F → Run (TestResults F)
    disk_io_read table test n f r = do
      require assert_failed (ltb 0 block_size)
      clock_accuracy ← get_min_exec_time table
      e ←
          retry
            (λ sub_iters n r. mul_int block_size sub_iters >>= λ loops.
              read_loop (pos_part test.iterations) sub_iters n (setup_file_for_read loops 1 f) r
              >>= λ m. ok (some m))
            double_int (judge clock_accuracy test.threshold mode params) retry_fuel 2 0 n r
      set_block_amount e

    unfoldable pub disk_io_write_config :
        ResultTable F → BenchmarkTest F → ℕ → TimeSpec → TimeSpec → File → Run (ℤ × ResultTable F)
    disk_io_write_config table test n start_time end_time f = do
      results ← create_test_result 1 test.iterations
      result ← element_at results 0
      r ← disk_io_write table test n start_time end_time f result
      table ← add_result_to_result_table2 table r diskio_write_config test
      ok (success, table)

    unfoldable pub disk_io_read_config :
        ResultTable F → BenchmarkTest F → ℕ → File → Run (ℤ × ResultTable F)
    disk_io_read_config table test n f = do
      results ← create_test_result 1 test.iterations
      result ← element_at results 0
      r ← disk_io_read table test n f result
      table ← add_result_to_result_table2 table r diskio_read_config test
      ok (success, table)
