-- ===== src/Middleware/UdsSvcSession/Tests.antt =====
-- Runs of nx_uds_svc_session.c at concrete inputs, and the theorems about it and the server's session
-- at such inputs. The application counts its resets.
use nx_c_util.Base.{
  ℕ, ◌+◌, ◌≡◌, ◌≢◌, refl, arith, true, false, ◌&&◌, none, some, List, [], ◌∷◌, if◌then◌else◌, ◌+32◌,
  reached,
}
use nx_c_util.Middleware.Uds.{request, confirm, silence, done, is_done, Ctx}
use nx_c_util.Middleware.UdsServer.{Server, default_session, enter_session, touch, check_s3}
use nx_c_util.Middleware.UdsServer.Held.{
  Event, to_session, to_level, touched, checked, apply_all, IsHeld, apply_all-IsHeld,
}
use nx_c_util.Middleware.UdsSvcSession.{
  Cfg, ResetCfg, window_counts, tester_present, control, ecu_reset,
}
use nx_c_util.Middleware.UdsSvcSession.Timing.{Answers, control-Answers}
use nx_c_util.Middleware.UdsSvcSession.Acting.{
  is_closing, decided, exchange, exchange-enters, ecu_reset-resets,
}

abbrev srv : Server
srv = record {
  p2_us = 50000;
  p2_star_us = 5000001;
  s3_us = 5000000;
  session_fn = true;
  session = 1;
  sec_level = 0;
  s3_armed = false;
  s3_deadline = 0;
  changes = [];
}

abbrev ask : (sid sub : ℕ) → List ℕ → Ctx
ask sid sub out = record {
  phase = request;
  req = sid ∷ sub ∷ [];
  req_len = 2;
  sid = sid;
  sub = sub;
  has_sub = false;
  ta_type = 0;
  link = 0;
  suppress_pos = false;
  session = 1;
  sec_level = 0;
  out = out;
  out_cap = 8;
  out_len = 1;
  nrc = 0;
  result = 0;
}

abbrev cfg : Cfg ℕ
cfg = record { allow_fn = none }

abbrev to_extended : Ctx
to_extended = ask 0x10 3 (0x50 ∷ 0 ∷ 0 ∷ 0 ∷ 0 ∷ 0 ∷ 0 ∷ 0 ∷ [])

-- A third of the resets are refused with 0x33.
abbrev reset_cfg : ResetCfg ℕ
reset_cfg = record {
  do_fn = some (λ count reset_type. count + 1);
  allow_fn = some (λ count reset_type nrc.
      if reached count 3 then (false, count, 0x33) else (true, count, nrc));
  power_down_time = 20;
}

abbrev to_reset : Ctx
to_reset = ask 0x11 4 (0x51 ∷ 0 ∷ 0 ∷ [])

present : (tester_present (ask 0x3E 0 (0x7E ∷ 9 ∷ []))).1.out ≡ 0x7E ∷ 0 ∷ []
unfolding tester_present
present = refl

answered :
    let o = control cfg 7 to_extended srv 0 in
    (o.disposition ≡ done) × (o.ctx.out ≡ 0x50 ∷ 3 ∷ 0 ∷ 50 ∷ 1 ∷ 0xF5 ∷ 0 ∷ 0 ∷ [])
unfolding control window_counts
answered = (refl, refl)

-- A window within a millisecond of the largest word wraps and is announced as nothing.
wrapped : window_counts 0xFFFFFFFF 1000 ≡ 0
unfolding window_counts
wrapped = refl

powered_down : (ecu_reset (some reset_cfg) to_reset 0).ctx.out ≡ 0x51 ∷ 4 ∷ 20 ∷ []
unfolding ecu_reset
powered_down = refl

control-Answers_example : Answers srv to_extended (control cfg 7 to_extended srv 0)
control-Answers_example =
    control-Answers cfg 7 to_extended srv 0 refl (omega arith) (omega arith) (omega arith)

exchange-enters_example : (exchange cfg 7 9 to_extended silence srv 0).state.0 ≡ (
    if is_closing silence && is_done (control cfg 7 to_extended srv 0).disposition
    then enter_session 9 srv 3
    else srv)
exchange-enters_example =
    exchange-enters cfg 7 9 to_extended silence srv 0 refl (λ e. ground arith) refl (omega arith)
      refl

ecu_reset-resets_example :
    let o = ecu_reset (some reset_cfg) to_reset 2 in
    (ecu_reset (some reset_cfg) (decided o confirm) o.state).state
    ≡ (if is_closing confirm && is_done o.disposition then o.state + 1 else o.state)
ecu_reset-resets_example =
    ecu_reset-resets (λ count reset_type. count + 1) reset_cfg to_reset confirm 2 refl refl
      (λ e. ground arith) refl (omega arith) refl

srv-IsHeld : IsHeld srv
srv-IsHeld = record { in_range = refl; armed = refl }

-- Into the extended session, unlocked there, asked for a session that there is not.
abbrev calls : List Event
calls = to_session 0 3 ∷ to_level 2 ∷ to_session 4 40 ∷ touched 9 ∷ checked 10 ∷ []

apply_all-IsHeld_example :
    let held = apply_all srv calls in
    IsHeld held
    × (held.session ≢ default_session
        → reached 5000020 (20 +32 held.s3_us) ≡ true
        → let gone = check_s3 5000020 (touch 20 held) in
          (gone.session ≡ default_session) × (gone.sec_level ≡ 0) × (gone.s3_armed ≡ false))
apply_all-IsHeld_example = apply_all-IsHeld srv calls 20 5000020 srv-IsHeld (omega arith)
