-- ===== src/Net/Client.antt =====
-- The client of rtmb_c/src/testcase/config_test/net_io_config.c: `net_io_config` with its measuring
-- loop. Printing has no part in it.
use rtmb.Net.Setup.{prepare, connect_loop, cleanup, Resources, ClientSetup, stopped_early, ready}
use rtmb.CString.{codes}
use rtmb.Score.{element_at}
use rtmb.Result.Create.{create_test_result}
use rtmb.Table.{get_min_exec_time, add_result_to_result_table2, ResultTable}
use rtmb.Params.{BenchmarkTest, InputParams, RtMode}
use rtmb.Net.{def_netio_sz, msg_alloc_init, receive, client, fetch, Network}
use rtmb.Result.{free_chain, TestResults}
use rtmb.Double.{Double}
use rtmb.Clock.{Clock}
use rtmb.Config.{
  retry_fuel, judge, add_difference, double_int, Ended, Verdict, eqb_ℤ, again, exhausted, accepted,
}
use rtmb.Base.Int.{pos_part, success, error, ℤ, pos}
use rtmb.Base.{
  ◌+◌, Option, ok, out_of_fuel, Run, List, ℕ, if◌then◌else◌, Bool, ◌>>=◌, false, true, some, none,
  suc, zero,
}

-- `NETIO_CONFIG`
abbrev pub netio_config : ℕ
netio_config = 7

-- Where the measuring loop stands: the result, the calls of the clock, the message and the network.
pub record Exchange (F W : Type 0) : Type 0 where
  pub result : TestResults F
  pub calls : ℕ
  pub msg : List ℕ
  pub world : W

module _ {F W : Type 0} ⦃d : Double F⦄ (qsort : (ℤ → ℤ → ℤ) → List ℤ → List ℤ) (clock : Clock)
    (net : Network W) (fuel : ℕ) where
  -- The loop over the iterations; nothing where it gives up.
  unfoldable pub exchange_loop :
      ℕ → ℕ → ℕ → List ℕ → W → TestResults F → Run (Option (Exchange F W))
  exchange_loop zero msg_size n msg w r =
      ok (some (record { result = r; calls = n; msg = msg; world = w }))
  exchange_loop (suc iters) msg_size n msg w r = elim (clock n) [
    | none ↦ ok none
    | some start_time ↦ (do
      message ← fetch msg_size msg
      let sent = net.send client message w
      if eqb_ℤ sent.0 (pos msg_size)
          then (do
            got ← receive net fuel client 0 msg_size msg sent.1
            elim (clock (n + 1)) [
              | none ↦ ok none
              | some end_time ↦ elim (eqb_ℤ got.ret error) [
                | true ↦ ok none
                | false ↦ (do
                  r ← add_difference qsort start_time end_time r
                  exchange_loop iters msg_size (n + 2) got.buffer got.world r)
              ]
            ])
          else ok none)
  ]

  -- `while (!done)`: the amount of work is the size of the message.
  module _ (iters : ℕ) (judged : ℕ → TestResults F → Run (Verdict × TestResults F)) where
    unfoldable pub exchange_rounds :
        ℕ → ℕ → ℕ → ℕ → List ℕ → W → TestResults F → Run (Option (Ended F ℕ) × W)
    exchange_rounds zero msg_size count n msg w r = out_of_fuel
    exchange_rounds (suc rounds) msg_size count n msg w r = do
      e ← exchange_loop iters msg_size n msg w r
      elim e [
        | none ↦ ok (none, w)
        | some e ↦ (do
          v ← judged count e.result
          elim v.0 [
            | accepted ↦ ok (
              some (record { passed = true; amount = msg_size; result = v.1; calls = e.calls }),
              e.world,
            )
            | exhausted ↦ ok (
              some (record { passed = false; amount = msg_size; result = v.1; calls = e.calls }),
              e.world,
            )
            | again count ↦ (do
              r ← free_chain v.1 false
              msg_size ← double_int msg_size
              exchange_rounds rounds msg_size count e.calls (msg_alloc_init msg_size) e.world r)
          ])
      ]

-- How the test ended: `targs->ret`, the table and what is still held.
pub record ClientEnd (F : Type 0) : Type 0 where
  pub ret : ℤ
  pub table : ResultTable F
  pub held : Resources

module _ {F W : Type 0} ⦃d : Double F⦄ (qsort : (ℤ → ℤ → ℤ) → List ℤ → List ℤ) (clock : Clock)
    (net : Network W) (mode : RtMode) (params : InputParams F) where
  -- The end of the test, from what the loop left.
  unfoldable pub enter_net :
      ResultTable F → BenchmarkTest F → Resources → Option (Ended F ℕ) → Run (ClientEnd F)
  enter_net table test held none = ok (record { ret = error; table = table; held = cleanup held })
  enter_net table test held (some e) = do
    table ←
        add_result_to_result_table2 table (record (e.result) { opern_amount = pos e.amount })
          netio_config test
    ok (record { ret = success; table = table; held = cleanup held })

  -- From the connection on; `world` is the network once the connecting loop has ended.
  unfoldable pub run_client :
      (ℕ → Bool)
      → (ℕ → Run ℤ)
      → (Bool → W)
      → ℕ
      → F
      → ResultTable F
      → BenchmarkTest F
      → ℕ
      → Resources
      → Run (ClientEnd F)
  run_client connect nap world fuel clock_accuracy table test n held = do
    connection ← connect_loop connect nap 12 0
    results ← create_test_result 1 test.iterations
    result ← element_at results 0
    e ←
        exchange_rounds qsort clock net fuel (pos_part test.iterations)
          (judge clock_accuracy test.threshold mode params) retry_fuel def_netio_sz 0 n
          (msg_alloc_init def_netio_sz) (world connection.0)
          (record result { desc = codes "Network I/O configuration test" })
    enter_net table test held e.0

  unfoldable pub net_io_config :
      ClientSetup
      → (ℕ → Bool)
      → (ℕ → Run ℤ)
      → (Bool → W)
      → ℕ
      → ResultTable F
      → BenchmarkTest F
      → ℕ
      → Run (ClientEnd F)
  net_io_config setup connect nap world fuel table test n = do
    clock_accuracy ← get_min_exec_time table
    elim (prepare setup) [
      | stopped_early held ↦ ok (record { ret = error; table = table; held = held })
      | ready held ↦ run_client connect nap world fuel clock_accuracy table test n held
    ]
