-- ===== src/Middleware/UdsServer.antt =====
-- src/middleware/nx_uds_server.h and nx_uds_server.c: the session that a server is in, with its quiet
-- timer and the security level, and the refusal that it writes.
pub mod Held
pub mod Table
pub mod Instance
pub mod Process
pub mod Indicate
pub mod Sound
mod Tests
use nx_c_util.Base.{
  ℕ, Bool, true, false, not, ◌&&◌, ◌||◌, Option, none, some, List, ◌∷◌, ◌++◌, [], leb, ◌==◌,
  if◌then◌else◌, ◌+32◌, reached, set,
}
use nx_c_util.Middleware.Uds.{Ctx}

-- Of `nx_uds_server_t`: the windows and the quiet time of the configuration, whether it has a
-- `session_fn`, and the session state. `changes` are the calls of `session_fn` so far.
pub record Server : Type 0 where
  pub p2_us : ℕ
  pub p2_star_us : ℕ
  pub s3_us : ℕ
  pub session_fn : Bool
  pub session : ℕ
  pub sec_level : ℕ
  pub s3_armed : Bool
  pub s3_deadline : ℕ
  pub changes : List (ℕ × ℕ)

-- `NX_UDS_SESSION_DEFAULT`, `NX_UDS_SESSION_MAX`
abbrev pub default_session : ℕ
default_session = 1

abbrev pub session_max : ℕ
session_max = 31

-- `NX_UDS_SESSION_IN_RANGE`
abbrev pub session_in_range : ℕ → Bool
session_in_range s = not (s == 0) && leb s session_max

-- `uds_arm_s3`, with the clock's reading.
unfoldable pub arm_s3 : (now : ℕ) → Server → Server
arm_s3 now srv =
    if srv.session == default_session
    then record srv { s3_armed = false }
    else record srv { s3_armed = true; s3_deadline = now +32 srv.s3_us }

-- `uds_enter_session`
unfoldable pub enter_session : (now : ℕ) → Server → ℕ → Server
unfolding arm_s3
enter_session now srv session =
    let entered = arm_s3 now (record srv { session = session; sec_level = 0 }) in
    if not (srv.session == session) && srv.session_fn
    then record entered { changes = (srv.session, session) ∷ entered.changes }
    else entered

-- `nx_uds_server_set_session`; `NX_UDS_SERVER_ERR_PARAM` leaves the server as it is.
unfoldable pub set_session : (now : ℕ) → Server → ℕ → Server
unfolding enter_session
set_session now srv session =
    if not (session_in_range session) then srv else enter_session now srv session

-- `nx_uds_server_set_sec_level`
unfoldable pub set_sec_level : Server → ℕ → Server
set_sec_level srv level = record srv { sec_level = level }

-- `nx_uds_server_touch`
unfoldable pub touch : (now : ℕ) → Server → Server
unfolding arm_s3
touch now srv = arm_s3 now srv

-- The quiet timer in `nx_uds_server_process`.
unfoldable pub check_s3 : (now : ℕ) → Server → Server
unfolding enter_session
check_s3 now srv =
    if srv.s3_armed && reached now srv.s3_deadline
    then enter_session now srv default_session
    else srv

-- `uds_put_negative`
unfoldable pub put_negative : Ctx → (sid nrc : ℕ) → Ctx
put_negative ctx sid nrc = record ctx {
  out = set (set (set ctx.out 0 0x7F) 1 sid) 2 nrc;
  out_len = 3;
}
