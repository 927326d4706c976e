-- ===== src/Net/Setup.antt =====
-- The start and the end of the client of rtmb_c/src/testcase/config_test/net_io_config.c: the calls
-- before the first message, whose answers are arguments, and `cleanup`.
use rtmb.Config.{eqb_ℤ}
use rtmb.Base.Int.{error, ℤ, pos}
use rtmb.Base.{
  Bool-cases, inr, inl, refl, leb, ◌+◌, ok, out_of_fuel, Run, ◌≡◌, ℕ, if◌then◌else◌, Bool, ◌>>=◌,
  false, true, suc, zero,
}

-- What the client holds: `server_tid` tells whether the variable is not 0, `server_runs` whether the
-- thread was made and not joined, and the others what is open or allocated.
pub record Resources : Type 0 where
  pub server_tid : Bool
  pub server_runs : Bool
  pub stay_alive : Bool
  pub cl_sock_fd : ℤ
  pub sock_open : Bool
  pub msg_held : Bool
  pub args_held : Bool

-- The server ends on its own once `stay_alive` is 0 and the socket is closed, so `pthread_join`
-- returns.
unfoldable pub cleanup : Resources → Resources
cleanup held =
    let stopped =
      if held.server_tid
      then record held {
        stay_alive = false;
        sock_open = if eqb_ℤ held.cl_sock_fd (pos 0) then held.sock_open else false;
        server_runs = false;
      }
      else held in
    record stopped { msg_held = false; args_held = false }

-- What the calls before the connection answer.
pub record ClientSetup : Type 0 where
  pub param_set : Bool
  pub thread_made : Bool
  pub address_found : Bool
  pub socket_fd : ℤ
  pub timeout_set : Bool

-- The test returns `ERROR`, or goes on.
pub data Prepared : Type 0 where
  stopped_early : Resources → Prepared
  ready : Resources → Prepared

unfoldable pub prepare : ClientSetup → Prepared
prepare setup =
    let held : Resources = record {
      server_tid = false;
      server_runs = false;
      stay_alive = true;
      cl_sock_fd = pos 0;
      sock_open = false;
      msg_held = false;
      args_held = true;
    } in
    if setup.param_set
    then (if setup.thread_made
        then (let held = record held { server_tid = true; server_runs = true; msg_held = true } in
            if setup.address_found
            then (if eqb_ℤ setup.socket_fd error
                then stopped_early (cleanup (record held { cl_sock_fd = error }))
                else (let held = record held { cl_sock_fd = setup.socket_fd; sock_open = true } in
                    if setup.timeout_set then ready held else stopped_early (cleanup held)))
            else stopped_early (cleanup (record held { server_tid = false })))
        else stopped_early (cleanup held))
    else stopped_early held

-- The connecting loop: whether the last `connect` succeeded, and how many there were. `nap` is
-- `do_nano_sleep(400LL * MS)`, whose result is not looked at.
unfoldable pub connect_loop : (ℕ → Bool) → (ℕ → Run ℤ) → ℕ → ℕ → Run (Bool × ℕ)
connect_loop connect nap zero retry = out_of_fuel
connect_loop connect nap (suc fuel) retry = elim (connect retry) [
  | true ↦ ok (true, retry + 1)
  | false ↦ elim (leb retry 10) [
    | true ↦ (do napped ← nap retry; connect_loop connect nap fuel (retry + 1))
    | false ↦ ok (false, retry + 1)
  ]
]

-- Nothing is held, and the server has ended.
pub record Released (held : Resources) : Type 0 where
  pub no_server : held.server_runs ≡ false
  pub closed : held.sock_open ≡ false
  pub no_msg : held.msg_held ≡ false
  pub no_args : held.args_held ≡ false

-- The calls whose failure the client handles in full.
pub data Refused (setup : ClientSetup) : Type 0 where
  no_thread : setup.param_set ≡ true → setup.thread_made ≡ false → Refused setup
  no_socket :
      setup.param_set ≡ true
      → setup.thread_made ≡ true
      → setup.address_found ≡ true
      → eqb_ℤ setup.socket_fd error ≡ true
      → Refused setup
  no_timeout :
      setup.param_set ≡ true
      → setup.thread_made ≡ true
      → setup.address_found ≡ true
      → eqb_ℤ setup.socket_fd error ≡ false
      → setup.timeout_set ≡ false
      → Refused setup

-- What the calls before the connection leave.
pub data Left (setup : ClientSetup) : Prepared → Type 0 where
  leaked :
      (held : Resources)
      → setup.param_set ≡ false
      → held.args_held ≡ true
      → held.server_runs ≡ false
      → Left setup (stopped_early held)
  abandoned :
      (held : Resources)
      → setup.param_set ≡ true
      → setup.thread_made ≡ true
      → setup.address_found ≡ false
      → held.args_held ≡ false
      → held.server_runs ≡ true
      → held.stay_alive ≡ true
      → Left setup (stopped_early held)
  given_up : (held : Resources) → Refused setup → Released held → Left setup (stopped_early held)
  going_on :
      (held : Resources)
      → setup.param_set ≡ true
      → setup.thread_made ≡ true
      → setup.address_found ≡ true
      → eqb_ℤ setup.socket_fd error ≡ false
      → setup.timeout_set ≡ true
      → held.server_runs ≡ true
      → held.args_held ≡ true
      → held.msg_held ≡ true
      → Released (cleanup held)
      → Left setup (ready held)

-- The descriptor of the socket is not 0. What the calls before the connection leave is told by
-- which of them fails first. After a refused scheduling the arguments leak. After a failed search
-- for the address the arguments are freed of a server that runs on, with `stay_alive` still set. If
-- no thread could be made, or there is no socket, or its timeout cannot be set, the server has
-- ended, the socket is closed and the memory freed. Otherwise, and only then, the test goes on: the
-- server runs with its arguments, and the `cleanup` at the end of the test stops it and releases
-- everything.
pub prepare-Left :
    (setup : ClientSetup) → eqb_ℤ setup.socket_fd (pos 0) ≡ false → Left setup (prepare setup)
unfolding prepare cleanup
prepare-Left setup nonzero = elim (Bool-cases setup.param_set) [
  | inr e ↦ rw e (leaked _ refl refl refl)
  | inl e ↦ elim (Bool-cases setup.thread_made) [
    | inr e1 ↦
        rw (e, e1)
          (given_up _ (no_thread refl refl)
            (record { no_server = refl; closed = refl; no_msg = refl; no_args = refl }))
    | inl e1 ↦ elim (Bool-cases setup.address_found) [
      | inr e2 ↦ rw (e, e1, e2) (abandoned _ refl refl refl refl refl refl)
      | inl e2 ↦ elim (Bool-cases (eqb_ℤ setup.socket_fd error)) [
        | inl e3 ↦
            rw (e, e1, e2, e3)
              (given_up _ (no_socket refl refl refl e3)
                (record { no_server = refl; closed = refl; no_msg = refl; no_args = refl }))
        | inr e3 ↦ elim (Bool-cases setup.timeout_set) [
          | inl e4 ↦
              rw (e, e1, e2, e3, e4)
                (going_on _ refl refl refl e3 refl refl refl refl (record {
                  no_server = refl;
                  closed = rw nonzero refl;
                  no_msg = refl;
                  no_args = refl;
                }))
          | inr e4 ↦
              rw (e, e1, e2, e3, e4)
                (given_up _ (no_timeout refl refl refl e3 refl) (record {
                  no_server = refl;
                  closed = rw nonzero refl;
                  no_msg = refl;
                  no_args = refl;
                }))
        ]
      ]
    ]
  ]
]
