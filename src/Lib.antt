-- ===== src/Lib.antt =====
-- rtmb, the real-time micro-benchmark, in its C version. Paths of C files
-- without a directory of their own stand below rtmb_c/src.
--
-- The harness reads the options (harness/RTMB_rd_cmd_line.c) and the input file with the tests
-- (harness/RTMB_parse_in_file.c), runs the configuration tests and then the micro-benchmarks, and
-- reports scores. Every test records its times in a result and enters the result in a table
-- (testcase/util/result_mgmt/result_mgmt.c); the vectors of results and scores are linked lists
-- (testcase/util/result_mgmt/vector.c). Later tests read the entries of the configuration tests.
--
-- Files:
-- - Base: the shared names; Base/Tests has Boolean tests, Base/Lists lists measured by native
--   numbers, Base/Effect runs that end with a value or a fault, Base/Int integers and the quotient
--   that C rounds towards zero.
-- - Long: `long long` with overflow as a fault, and bounds that rule it out. Double: the operations
--   of `double` as a record; a theorem that needs a law of them, that `<` is an order or that whole
--   numbers are counted exactly, has it as a hypothesis. Double/Whole gives them by whole numbers.
-- - CString: strings as bytes, and the functions of <string.h> that the harness calls; `atoi` is
--   for numbers that fit an `int`, and the parser stops with a fault at another. Params: the structures of harness/include.
-- - Vector: `vector_t` on a heap from addresses to nodes. Vector/Chain says when a heap holds a
--   vector, Vector/Add and Vector/Read have the theorems. What `calloc` returns is an argument: a
--   fresh address, or NULL.
-- - Result: `test_results_t`, `add_entry`, `compute_std_time`, `get_median`; Result/Limits has
--   `check_pass_criteria`, Result/Normalize `normalize_result`, Result/Clone `clone_results`. The
--   array `values` is a list, and an index outside it is a fault. Sum, Sorted, Median, Std,
--   Extremes, Recorded, Finish and Add lead to the theorem on `add_entry`. `qsort` is a parameter
--   that rearranges the array. It is not assumed to sort, since the comparator of the code breaks
--   its contract: a median is the middle of the order that `qsort` leaves, and the true median if
--   that order is sorted. Result/Insertion has a `qsort` that keeps this promise.
-- - Score: `get_contribution`, `generate_combined_score`, `compute_bm_test_result_scores`;
--   Score/Exchange is about the sort of the medians. Table: the result table, the functions that
--   enter results and read them, and `compute_system_scores`.
-- - Parser: `parse_input_file`, one function for every branch of the loop; Parser/Lines is about
--   single lines, Parser/Reading about `fgets`, Parser/Brackets about "test" and "/test",
--   Parser/RoundTrip about whole files.
-- - Launch: `get_iters`, `run_test` and `launch_tests`; the shared object of a test is a parameter,
--   and Launch/Order is about the order of the tests and the result of the launcher.
-- - Command: `parse_cmd_line`, `setup_testcase_names` and `setup_default_options`.
-- - Clock: the readings of the clock, their difference and `do_nano_sleep` (testcase/util/time_mgmt).
--   Work: the work that the tests time (testcase/util/math_operations and array_operations).
-- - Params/Percent and Result/Create: the percentages of the mode of the run, and new results, of
--   testcase/util/result_mgmt/result_mgmt.c.
-- - Config: the loop that measures again with twice the work, which the tests share; Config/Doubling
--   and Config/Retry are about it. Config/SysClock is `clock_config`, Config/Timer `timer_config`
--   with its binary search, Config/Rates the tests of integers, floating point and memory
--   (testcase/config_test); Config/Accuracy is `time_accuracy` and Config/Locks `lock_consistency`;
--   Config/Disk has the two tests of the disk, with a file as its bytes and place (testcase/util/io_opern). What `clock_gettime` and `nanosleep` answer is an argument.
-- - Barrier: how the threads of testcase/thread_priority_test start and end together, as a step
--   relation on the number of threads in each phase; Barrier/Invariant is about all runs, and
--   Barrier/Stuck about where they stop. Matrix is their product of matrices, and Threads the test of
--   their order and the scores of testcase/multi_thread_test.
-- - Net: `net_io_config` (testcase/config_test/net_io_config.c), the server in Net and the client in
--   Net/Client and Net/Setup. Net/Stream says what the sockets promise and Net/Pipe gives such
--   sockets, and that no signal cuts a `send` short is a hypothesis of its own; Net/Pieces, Net/Echo and Net/Rounds are about what is received and sent back.
-- - Dispatch: the turns of the two threads of testcase/event_dispatch_test, and their measurement in
--   Dispatch/Measure; Dispatch/Turns lists the states that they can be in together, for
--   Dispatch/Heard and Dispatch/Ending, which are about runs without a spurious wakeup in the two
--   inner loops; Dispatch/Early is about one such wakeup. Periodic: the timer of testcase/periodic_event_test, its
--   handler and the attempts; Periodic/Fired, Waits and Lags are about one run of the timer.
-- - Home: the search for the directory of the program, and Program: `main` with the order of its
--   phases (harness/RTMB.c). Report: the files that reporter/reporter.c writes, as lists of lines.
-- - The modules Examples apply the theorems to concrete input.
--
-- Fuel: `free_elements` has one round more than the size of the vector, and the loop over the names
-- of tests one more than the bytes of the argument; the loop that measures again has 32 rounds, since
-- an `int` that doubles overflows before that; `do_nano_sleep` has one more than the signals that interrupt it,
-- and the binary search as many as there are amounts; a receiving loop has one round for each byte and
-- each signal, and the loop that waits for the timer one more than the waits. The theorems show that
-- this is enough.
-- All other loops are recursion on the list or the number that bounds them.
--
-- A mutex is a flag, for one thread: taking a lock that is held is a deadlock. Memory for results,
-- scores and tests is never exhausted (the code calls `abort` there, or does not look). In Score and
-- Table a vector is the list of its elements, as the theorems on `get_element_at` allow. The
-- arithmetic of `double`, the conversion of a `double` to an integer included, is a parameter, so
-- overflow of that conversion and the narrowing of `min_acceptable_iterations` to `int` are not
-- seen. Fields of type `float` are rounded by the record of `double` when they are stored. The input
-- file is its bytes, without a NUL, and output is left out.
--
-- Not modelled: printing to the terminal, `print_scores` included (output only), the creation of
-- threads (calls of the operating system), and the C++ and Java programs, which are other
-- implementations. `main` ends with the table and the scores; Report goes on from there.
pub mod Threads
pub mod Matrix
pub mod Net
pub mod Barrier
pub mod Clock
pub mod Work
pub mod Config
pub mod Base
pub mod Vector
pub mod Long
pub mod Double
pub mod CString
pub mod Params
pub mod Command
pub mod Launch
pub mod Parser
pub mod Result
pub mod Periodic
pub mod Dispatch
pub mod Home
pub mod Program
pub mod Report
pub mod Score
pub mod Table
