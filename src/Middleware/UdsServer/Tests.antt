-- ===== src/Middleware/UdsServer/Tests.antt =====
-- Runs of nx_uds_server.c at concrete inputs, and the theorems about it at such inputs. The table has
-- session control and a service that is never done; the application counts what the carrier took.
use nx_c_util.Base.{
  ℕ, suc, zero, ◌+◌, ◌*◌, ◌≡◌, ◌≢◌, ◌⊎◌, inl, inr, refl, arith, true, false, none, some, List, [],
  ◌∷◌, get_elem?,
}
use nx_c_util.Middleware.Uds.{pending}
use nx_c_util.Middleware.UdsServer.{Server, arm_s3, put_negative, check_s3}
use nx_c_util.Middleware.UdsServer.Held.{touched}
use nx_c_util.Middleware.UdsServer.Table.{
  Handler, Row, is_response_sid, find_row, row_in_session, find_sub, sub_session_mask, row_valid,
  rows_valid,
}
use nx_c_util.Middleware.UdsServer.Instance.{
  OutFn, Cfg, vacant, running, awaiting, blank_txn, Instance, row_handler, txn_row,
  negative_suppressed, refuse, answer_ready, run_handler, apply_disposition, left_by, call, notify,
  txn_end, apply_done, sends_positive,
}
use nx_c_util.Middleware.UdsServer.Process.{
  ok, err_param, err_busy, txn_p4, process, confirm_link, init, accepts, fresh, resolved,
  expire_session, limit, give_up, advance, pend, emit_pending, give_out, pend_taken, pend_refused,
  resume_or_fail, deliver, offer, wait_word, txn_max_pending, fail_link,
}
use nx_c_util.Middleware.UdsServer.Process.Ending.{Overdue, Unheard, process-closes}
use nx_c_util.Middleware.UdsServer.Indicate.{
  indicate, too_long, look_up, arm, refuse_before, txn_begin, dispatch, take_request, check_sub,
  read_sub, enter_handler,
}
use nx_c_util.Middleware.UdsServer.Sound.{Respects, HasRespect, Sound}
use nx_c_util.Middleware.UdsServer.Sound.Running.{
  Call, indicated, processed, confirmed, session_call, after_all, after_all-Sound,
}
use nx_c_util.Middleware.UdsSvcSession.{control, at_phase, allowed}
use nx_c_util.Middleware.UdsSvcSession.Respecting.{control-Respects}
use nx_c_util.Middleware.UdsSvcSession.Served.Asked.{Lets, Fits}
use nx_c_util.Middleware.UdsSvcSession.Served.Exchange.{exchange-changes}

abbrev srv : Server
srv = record {
  p2_us = 50000;
  p2_star_us = 5000000;
  s3_us = 5000000;
  session_fn = false;
  session = 1;
  sec_level = 0;
  s3_armed = false;
  s3_deadline = 0;
  changes = [];
}

-- Every change of the session is allowed.
abbrev allowing : nx_c_util.Middleware.UdsSvcSession.Cfg ℕ
allowing = record { allow_fn = none }

-- 0x10 with the sessions 1 and 3, in the sessions 1 and 3.
abbrev control_row : Row ℕ
control_row = record {
  sid = 0x10;
  flags = 1;
  sec_level = 0;
  subs = some (1 ∷ 3 ∷ []);
  sub_session_masks = none;
  session_mask = 10;
  min_len = 2;
  max_len = 2;
  p4_us = 0;
  max_pending = 0;
  p4_nrc = 0;
  handler = some (control allowing);
}

abbrev never_done : Handler ℕ
never_done now ctx srv app = record { disposition = pending; ctx = ctx; state = (srv, app) }

abbrev slow_row : Row ℕ
slow_row = record {
  sid = 0x31;
  flags = 0;
  sec_level = 0;
  subs = none;
  sub_session_masks = none;
  session_mask = 10;
  min_len = 1;
  max_len = 0;
  p4_us = 0;
  max_pending = 0;
  p4_nrc = 0;
  handler = some never_done;
}

abbrev taking : OutFn ℕ
taking app link bytes len ta_type = (true, app + 1)

-- The clock gains a second with every reading.
abbrev cfg : Cfg ℕ
cfg = record {
  services = control_row ∷ slow_row ∷ [];
  out_fn = some taking;
  req_buf_size = 8;
  out_buf_size = 8;
  max_req_apdu = 0;
  max_resp_apdu = 0;
  link = 4;
  accept_rsp_range_sid = false;
  get_us = λ count. count * 1000000;
  p2_adjust_us = 0;
  p4_us = 0;
  p4_nrc = 0;
  max_pending = 0;
}

abbrev blank : List ℕ
blank = 0 ∷ 0 ∷ 0 ∷ 0 ∷ 0 ∷ 0 ∷ 0 ∷ 0 ∷ []

abbrev raw : Instance ℕ
raw = record {
  cfg = cfg;
  srv = srv;
  txn = blank_txn;
  req_buf = blank;
  out_buf = blank;
  app = 0;
  reads = 0;
}

-- The same once it is set up.
abbrev ready : Instance ℕ
ready = record raw { cfg = record cfg { p4_us = 20000000; max_pending = 32; max_resp_apdu = 8 } }

set_up : init raw cfg ≡ some ready
unfolding init accepts rows_valid row_valid is_response_sid fresh resolved
set_up = refl

-- An unknown service, a session that the row does not list, one of another's buffer.
unknown :
    (indicate ready (0x22 ∷ 1 ∷ []) 2 0 4).1.txn.ctx.out
    ≡ 0x7F ∷ 0x22 ∷ 0x11 ∷ 0 ∷ 0 ∷ 0 ∷ 0 ∷ 0 ∷ []
unfolding indicate is_response_sid too_long look_up arm find_row refuse_before negative_suppressed
    put_negative txn_begin dispatch row_in_session arm_s3 take_request check_sub find_sub read_sub
    refuse answer_ready enter_handler run_handler row_handler txn_row apply_disposition left_by call
    notify txn_end apply_done sends_positive sub_session_mask
unknown = refl

unlisted :
    (indicate ready (0x10 ∷ 2 ∷ []) 2 0 4).1.txn.ctx.out
    ≡ 0x7F ∷ 0x10 ∷ 0x12 ∷ 0 ∷ 0 ∷ 0 ∷ 0 ∷ 0 ∷ []
unfolding indicate is_response_sid too_long look_up arm find_row refuse_before negative_suppressed
    put_negative txn_begin dispatch row_in_session arm_s3 take_request check_sub find_sub read_sub
    refuse answer_ready enter_handler run_handler row_handler txn_row apply_disposition left_by call
    notify txn_end apply_done sends_positive sub_session_mask control at_phase
unlisted = refl

foreign : (indicate ready (0x10 ∷ 3 ∷ []) 2 0 5).0 ≡ err_param
unfolding indicate is_response_sid too_long look_up arm find_row refuse_before negative_suppressed
    put_negative txn_begin dispatch row_in_session arm_s3 take_request check_sub find_sub read_sub
    refuse answer_ready enter_handler run_handler row_handler txn_row apply_disposition left_by call
    notify txn_end apply_done sends_positive sub_session_mask
foreign = refl

-- A service that is not done keeps the server busy, and pends when its window is over.
abbrev in_flight : Instance ℕ
in_flight = (indicate ready (0x31 ∷ []) 1 0 4).1

busy : (indicate in_flight (0x31 ∷ []) 1 0 4).0 ≡ err_busy
unfolding indicate is_response_sid too_long look_up arm find_row refuse_before negative_suppressed
    put_negative txn_begin dispatch row_in_session arm_s3 take_request check_sub find_sub read_sub
    refuse answer_ready enter_handler run_handler row_handler txn_row apply_disposition left_by call
    notify txn_end apply_done sends_positive sub_session_mask
busy = refl

pends : (process (process in_flight)).txn.pend_count ≡ 1
unfolding indicate is_response_sid too_long look_up arm find_row refuse_before negative_suppressed
    put_negative txn_begin dispatch row_in_session arm_s3 take_request check_sub find_sub read_sub
    refuse answer_ready enter_handler run_handler row_handler txn_row apply_disposition left_by call
    notify txn_end apply_done sends_positive sub_session_mask process expire_session check_s3 limit
    give_up advance pend emit_pending give_out pend_taken pend_refused resume_or_fail deliver offer
    wait_word txn_p4 txn_max_pending fail_link
pends = refl

never_done-Respects : Respects never_done
never_done-Respects = record {
  buffer = λ now ctx srv app. refl;
  cap = λ now ctx srv app. refl;
  decided = λ now ctx srv app report. refl;
}

table-respects : (n : ℕ) → HasRespect (row_handler (get_elem? cfg.services n))
unfolding row_handler
table-respects zero = control-Respects allowing
table-respects (suc zero) = never_done-Respects
table-respects (suc (suc n)) = tt

abbrev calls : List (Call ℕ)
calls =
    indicated (0x10 ∷ 3 ∷ []) 2 0 4
    ∷ processed
    ∷ confirmed 4 0
    ∷ session_call (touched 7)
    ∷ indicated (0x31 ∷ []) 1 0 4
    ∷ processed
    ∷ []

after_all-Sound_example : Sound (after_all ready calls)
after_all-Sound_example = after_all-Sound raw ready cfg calls set_up refl table-respects

-- Half a minute after the request.
abbrev late : Instance ℕ
late = record in_flight { cfg = record in_flight.cfg { get_us = λ count. 30000000 } }

late_runs : late.txn.state ≡ running
unfolding indicate is_response_sid too_long look_up arm find_row refuse_before negative_suppressed
    put_negative txn_begin dispatch row_in_session arm_s3 take_request check_sub find_sub read_sub
    refuse answer_ready enter_handler run_handler row_handler txn_row apply_disposition left_by call
    notify txn_end apply_done sends_positive sub_session_mask
late_runs = refl

late-Overdue : Overdue late 5
unfolding indicate is_response_sid too_long look_up arm find_row refuse_before negative_suppressed
    put_negative txn_begin dispatch row_in_session arm_s3 take_request check_sub find_sub read_sub
    refuse answer_ready enter_handler run_handler row_handler txn_row apply_disposition left_by call
    notify txn_end apply_done sends_positive sub_session_mask txn_p4
late-Overdue = record { past = λ n from before. refl }

process-closes_example :
    ((process late).txn.state ≡ vacant)
    ⊎ (((process late).txn.state ≡ awaiting)
        × (Unheard (process late) → (process (process late)).txn.state ≡ vacant))
process-closes_example = process-closes late (inl late_runs) late-Overdue

control_row-Lets : Lets allowing 3 control_row (1 ∷ 3 ∷ []) 1 0
unfolding row_in_session find_sub sub_session_mask
control_row-Lets = record {
  handler = refl;
  in_session = refl;
  unlocked = omega arith;
  least = omega arith;
  most = inr (omega arith);
  has_sub = refl;
  lists = refl;
  listed = omega arith;
  open_to = omega arith;
  ranged = refl;
}

ready-Fits : Fits allowing 3 control_row (1 ∷ 3 ∷ []) 1 0 ready
unfolding find_row allowed
ready-Fits = record {
  found = refl;
  room = omega arith;
  granted = omega arith;
  buffer = omega arith;
  at_session = refl;
  at_level = refl;
  agreed = refl;
}

ready_short : too_long ready.cfg 2 ≡ false
unfolding too_long
ready_short = refl

-- The carrier's good word.
abbrev good : ℕ
good = 0

exchange-changes_example :
    let asked = indicate ready (0x10 ∷ 3 ∷ []) 2 0 4 in
    let waiting = process asked.1 in
    let told = confirm_link waiting 4 good in
    (asked.0 ≡ ok)
    × (asked.1.srv.session ≡ 1)
    × (waiting.txn.state ≡ awaiting)
    × (told.0 ≡ ok)
    × (told.1.txn.state ≡ vacant)
    × (good ≡ 0 → (told.1.srv.session ≡ 3) × (told.1.srv.sec_level ≡ 0))
    × (good ≢ 0 → told.1.srv ≡ waiting.srv)
exchange-changes_example =
    exchange-changes allowing 3 control_row (1 ∷ 3 ∷ []) ready taking good control_row-Lets
      ready-Fits refl ready_short (omega arith) refl (λ app link bytes len ta_type. refl)
