-- ===== src/Middleware/UdsSvcSession.antt =====
-- src/middleware/nx_uds_svc_session.h and nx_uds_svc_session.c: the services 0x10, 0x11 and 0x3E. The
-- application is a value that its callbacks take and give back.
pub mod Timing
pub mod Acting
pub mod Served
pub mod Respecting
mod Tests
use nx_c_util.Base.{
  ℕ, ◌/◌, Bool, true, false, not, ◌&&◌, Option, none, some, List, ltb, leb, ◌==◌, if◌then◌else◌, u8,
  u16, ◌+32◌, ◌-32◌, ◌>>◌, get_or, set,
}
use nx_c_util.Middleware.Uds.{
  Phase, request, resume, response, confirm, link_error, silence, abort, Disposition, done,
  negative, Ctx, Outcome, positive_sid,
}
use nx_c_util.Middleware.UdsServer.{Server, session_in_range, set_session}

-- `nx_uds_svc_session_allow_fn`: the application, the two sessions and the reason to its result, the
-- application and the reason.
abbrev pub AllowFn : Type 0 → Type 0
AllowFn M = M → (from to nrc : ℕ) → Bool × M × ℕ

-- `nx_uds_svc_session_reset_allow_fn`
abbrev pub ResetAllowFn : Type 0 → Type 0
ResetAllowFn M = M → (reset_type nrc : ℕ) → Bool × M × ℕ

-- `nx_uds_svc_session_reset_do_fn`
abbrev pub ResetDoFn : Type 0 → Type 0
ResetDoFn M = M → (reset_type : ℕ) → M

-- `nx_uds_svc_session_cfg_t`; the server that it points to is an argument of the handler.
pub record Cfg (M : Type 0) : Type 0 where
  pub allow_fn : Option (AllowFn M)

-- `nx_uds_svc_session_reset_cfg_t`
pub record ResetCfg (M : Type 0) : Type 0 where
  pub do_fn : Option (ResetDoFn M)
  pub allow_fn : Option (ResetAllowFn M)
  pub power_down_time : ℕ

-- `svc_answered_positively`
unfoldable pub answered_positively : Ctx → Bool
answered_positively ctx = leb 2 ctx.out_len && (get_or ctx.out 0 0 == positive_sid ctx.sid)

-- `nx_uds_svc_session_tester_present`
unfoldable pub tester_present : Ctx → Disposition × Ctx
tester_present ctx = elim ctx.phase [
  | request ↦ (done, record ctx { out = set ctx.out 1 ctx.sub; out_len = 2 })
  | _ ↦ (done, ctx)
]

-- `svc_window_counts`
unfoldable pub window_counts : (us unit : ℕ) → ℕ
window_counts us unit =
    let counts = ((us +32 unit) -32 1) / unit in u16 (if ltb 0xFFFF counts then 0xFFFF else counts)

module _ {S : Type 0} where
  -- `ctx->nrc = nrc; return NX_UDS_DISPOSITION_NEGATIVE;`
  unfoldable pub refuse : Ctx → S → ℕ → Outcome S
  refuse ctx s nrc = record { disposition = negative; ctx = record ctx { nrc = nrc }; state = s }

  abbrev pub answer : Ctx → S → Outcome S
  answer ctx s = record { disposition = done; ctx = ctx; state = s }

  -- The switch on the phase: the first one, the end of an answer that may have been positive, the rest.
  unfoldable pub at_phase : Phase → (first closing later : Outcome S) → Outcome S
  at_phase request first closing later = first
  at_phase resume first closing later = later
  at_phase response first closing later = later
  at_phase confirm first closing later = closing
  at_phase link_error first closing later = later
  at_phase silence first closing later = closing
  at_phase abort first closing later = later

-- The answer of `nx_uds_svc_session_control`.
unfoldable pub windows : Server → Ctx → Ctx
windows srv ctx =
    let p2 = window_counts srv.p2_us 1000 in
    let p2_star = window_counts srv.p2_star_us 10000 in
    let out = set (set (set ctx.out 1 ctx.sub) 2 (u8 (p2 >> 8))) 3 (u8 p2) in
    record ctx { out = set (set out 4 (u8 (p2_star >> 8))) 5 (u8 p2_star); out_len = 6 }

module _ {M : Type 0} where
  -- `allow_fn`, where there is one.
  unfoldable pub allowed : Option (AllowFn M) → M → (from to : ℕ) → Bool × M × ℕ
  allowed none app from to = (true, app, 0x22)
  allowed (some allow_fn) app from to = allow_fn app from to 0x22

  -- What follows `allow_fn`.
  unfoldable pub announce : Server → Ctx → Bool × M × ℕ → Outcome (Server × M)
  unfolding refuse windows
  announce srv ctx (allow, app, nrc) =
      if not allow
      then refuse ctx (srv, app) nrc
      else if ltb ctx.out_cap 6
      then refuse ctx (srv, app) 0x14
      else answer (windows srv ctx) (srv, app)

  -- `nx_uds_svc_session_control` at the first phase.
  unfoldable pub accept : Cfg M → Server → Ctx → M → Outcome (Server × M)
  unfolding refuse announce allowed
  accept cfg srv ctx app =
      if not (session_in_range ctx.sub)
      then refuse ctx (srv, app) 0x12
      else announce srv ctx (allowed cfg.allow_fn app ctx.session ctx.sub)

  -- At the end of the answer.
  unfoldable pub enter : (now : ℕ) → Server → Ctx → M → Outcome (Server × M)
  unfolding answered_positively set_session
  enter now srv ctx app =
      answer ctx
        (if answered_positively ctx then (set_session now srv ctx.sub, app) else (srv, app))

  -- `nx_uds_svc_session_control`, with a configuration and its server.
  unfoldable pub control : Cfg M → (now : ℕ) → Ctx → Server → M → Outcome (Server × M)
  unfolding at_phase accept enter
  control cfg now ctx srv app =
      at_phase ctx.phase (accept cfg srv ctx app) (enter now srv ctx app) (answer ctx (srv, app))

  -- The same without one of them.
  unfoldable pub control_without : Ctx → M → Outcome M
  unfolding refuse
  control_without ctx app = refuse ctx app 0x22

  -- `allow_fn` of a reset, where there is one.
  unfoldable pub reset_allowed : Option (ResetAllowFn M) → M → (reset_type : ℕ) → Bool × M × ℕ
  reset_allowed none app reset_type = (true, app, 0x22)
  reset_allowed (some allow_fn) app reset_type = allow_fn app reset_type 0x22

  -- What follows it.
  unfoldable pub accept_reset : (power_down_time : ℕ) → Ctx → Bool × M × ℕ → Outcome M
  unfolding refuse
  accept_reset power_down_time ctx (allow, app, nrc) =
      let len = if ctx.sub == 4 then 3 else 2 in
      let out = set ctx.out 1 ctx.sub in
      if not allow
      then refuse ctx app nrc
      else if ltb ctx.out_cap len
      then refuse ctx app 0x14
      else answer
          (record ctx { out = if len == 3 then set out 2 power_down_time else out; out_len = len })
          app

  -- At the end of the answer.
  unfoldable pub reset : ResetDoFn M → Ctx → M → Outcome M
  unfolding answered_positively
  reset do_fn ctx app = answer ctx (if answered_positively ctx then do_fn app ctx.sub else app)

  -- `nx_uds_svc_session_ecu_reset` with a `do_fn`.
  unfoldable pub reset_by : ResetDoFn M → ResetCfg M → Ctx → M → Outcome M
  unfolding at_phase accept_reset reset_allowed reset
  reset_by do_fn cfg ctx app =
      at_phase ctx.phase
        (accept_reset cfg.power_down_time ctx (reset_allowed cfg.allow_fn app ctx.sub))
        (reset do_fn ctx app) (answer ctx app)

  -- `nx_uds_svc_session_ecu_reset`
  unfoldable pub ecu_reset : Option (ResetCfg M) → Ctx → M → Outcome M
  unfolding refuse reset_by
  ecu_reset none ctx app = refuse ctx app 0x22
  ecu_reset (some cfg) ctx app = elim cfg.do_fn [
    | none ↦ refuse ctx app 0x22
    | some do_fn ↦ reset_by do_fn cfg ctx app
  ]
