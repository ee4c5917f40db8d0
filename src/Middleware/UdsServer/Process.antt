-- ===== src/Middleware/UdsServer/Process.antt =====
-- src/middleware/nx_uds_server.c: setting up, and what drives a transaction on.
pub mod Ending
use nx_c_util.Base.{
  ℕ, ◌+◌, Bool, true, false, not, ◌&&◌, ◌||◌, Option, none, some, List, [], ◌∷◌, length, ltb, leb,
  ◌==◌, if◌then◌else◌, ◌+32◌, ◌-32◌, reached,
}
use nx_c_util.Middleware.Uds.{Phase, resume, confirm, link_error, abort, Ctx}
use nx_c_util.Middleware.UdsServer.{Server, default_session, check_s3}
use nx_c_util.Middleware.UdsServer.Table.{Row, rows_valid}
use nx_c_util.Middleware.UdsServer.Instance.{
  OutFn, Cfg, TxnState, vacant, running, sending, awaiting, is_awaiting, Txn, blank_txn, Instance,
  now, read, with_ctx, txn_row, notify, txn_end, refuse, run_handler,
}

-- `nx_uds_server_ret_t`
pub data ServerRet : Type 0 where
  ok err_param err_busy err_state : ServerRet

abbrev pub or_default : (value default : ℕ) → ℕ
or_default value default = if value == 0 then default else value

-- The session state of an instance that has just been set up.
unfoldable pub fresh : Server → Server
fresh srv = record srv {
  p2_us = or_default srv.p2_us 50000;
  p2_star_us = or_default srv.p2_star_us 5000000;
  s3_us = or_default srv.s3_us 5000000;
  session = default_session;
  sec_level = 0;
  s3_armed = false;
  s3_deadline = 0;
}

module _ {M : Type 0} where
  -- `uds_txn_p4`, `uds_txn_max_pending`
  unfoldable pub txn_p4 : Instance M → ℕ
  txn_p4 i = or_default (elim (txn_row i) [ none ↦ 0 | some row ↦ row.p4_us ]) i.cfg.p4_us

  unfoldable pub txn_max_pending : Instance M → ℕ
  txn_max_pending i =
      or_default (elim (txn_row i) [ none ↦ 0 | some row ↦ row.max_pending ]) i.cfg.max_pending

  -- `uds_txn_p4_nrc`
  unfoldable pub txn_p4_nrc : Instance M → ℕ
  txn_p4_nrc i =
      or_default (elim (txn_row i) [ none ↦ 0 | some row ↦ row.p4_nrc ])
        (or_default i.cfg.p4_nrc 0x21)

  -- `out_fn`, where there is one: whether it takes the bytes, and the application.
  unfoldable pub give_out : Instance M → List ℕ → (len : ℕ) → Bool × M
  give_out i bytes len = elim i.cfg.out_fn [
    | none ↦ (false, i.app)
    | some out_fn ↦ out_fn i.app i.txn.ctx.link bytes len i.txn.ctx.ta_type
  ]

  -- A notification that was not taken.
  unfoldable pub pend_refused : Instance M → Instance M
  pend_refused i = if i.txn.pend_stuck then i else record (read i) {
    txn = record i.txn { pend_stuck = true; pend_give_up = now i +32 i.srv.p2_star_us };
  }

  -- One that was.
  unfoldable pub pend_taken : Instance M → Instance M
  pend_taken i = record (read i) {
    txn = record i.txn {
      pend_stuck = false;
      ctx = record i.txn.ctx { suppress_pos = false };
      pending_sent = true;
      pend_count = if ltb i.txn.pend_count 0xFF then i.txn.pend_count + 1 else i.txn.pend_count;
      deadline = (now i +32 i.srv.p2_star_us) -32 i.cfg.p2_adjust_us;
    };
  }

  -- `uds_emit_pending`
  unfoldable pub emit_pending : Instance M → Instance M
  emit_pending i =
      let (taken, app) = give_out i (0x7F ∷ i.txn.ctx.sid ∷ 0x78 ∷ []) 3 in
      let i' = record i { app = app } in if taken then pend_taken i' else pend_refused i'

  -- The quiet timer.
  unfoldable pub expire_session : Instance M → Instance M
  expire_session i = if i.srv.s3_armed then record (read i) { srv = check_s3 (now i) i.srv } else i

  -- A transaction that is past its limits is refused.
  unfoldable pub give_up : Instance M → Instance M
  give_up i =
      if reached (now i) (i.txn.started +32 txn_p4 i) || leb (txn_max_pending i) i.txn.pend_count
      then (let i' = notify (read i) abort in refuse i' (txn_p4_nrc i'))
      else read i

  -- The notification that is due.
  unfoldable pub pend : Instance M → Instance M
  pend i = if reached (now i) i.txn.deadline then emit_pending (read i) else read i

  -- The end of a transaction whose answer did not reach the link.
  unfoldable pub fail_link : Instance M → (result : ℕ) → Instance M
  fail_link i result =
      txn_end (notify (with_ctx i (record i.txn.ctx { result = result })) link_error)

  -- The handler is called again, unless no notification reached the client for a whole window.
  unfoldable pub resume_or_fail : Instance M → Instance M
  resume_or_fail i =
      if i.txn.pend_stuck
      then (if reached (now i) i.txn.pend_give_up
          then fail_link (read i) 9
          else run_handler (read i) resume)
      else run_handler i resume

  -- The answer is offered to the carrier.
  unfoldable pub offer : Instance M → Instance M
  offer i =
      let (taken, app) = give_out i i.txn.ctx.out i.txn.ctx.out_len in
      let i' = record i { app = app } in
      if taken
      then record (read i') {
        txn = record i'.txn { state = awaiting; deadline = now i' +32 txn_p4 i' };
      }
      else if reached (now i') (i'.txn.started +32 txn_p4 i')
      then txn_end (notify (read i') abort)
      else read i'

  -- The carrier's word is awaited.
  unfoldable pub wait_word : Instance M → Instance M
  wait_word i = if reached (now i) i.txn.deadline then fail_link (read i) 9 else read i

  -- Each state's part of `nx_uds_server_process`, in the order in which the code comes to them.
  unfoldable pub limit : TxnState → Instance M → Instance M
  limit vacant i = i
  limit running i = give_up i
  limit sending i = i
  limit awaiting i = i

  unfoldable pub advance : TxnState → Instance M → Instance M
  advance vacant i = i
  advance running i = resume_or_fail (pend i)
  advance sending i = i
  advance awaiting i = i

  unfoldable pub deliver : TxnState → Instance M → Instance M
  deliver vacant i = i
  deliver running i = i
  deliver sending i = offer i
  deliver awaiting i = wait_word i

  -- `nx_uds_server_process`
  unfoldable pub process : Instance M → Instance M
  process i =
      let i1 = expire_session i in
      let i2 = limit i1.txn.state i1 in let i3 = advance i2.txn.state i2 in deliver i3.txn.state i3

  -- `nx_uds_server_confirm`
  unfoldable pub confirm_link : Instance M → (link result : ℕ) → ServerRet × Instance M
  confirm_link i link result =
      let i' = with_ctx i (record i.txn.ctx { result = result }) in
      if not (link == i.cfg.link)
      then (err_param, i)
      else if not (is_awaiting i.txn.state)
      then (err_state, i)
      else (ok, txn_end (notify i' (if result == 0 then confirm else link_error)))

  -- `nx_uds_server_set_output`
  unfoldable pub set_output : Instance M → OutFn M → Instance M
  set_output i out_fn = record i { cfg = record i.cfg { out_fn = some out_fn } }

  -- `nx_uds_server_is_busy`
  unfoldable pub is_busy : Instance M → Bool
  is_busy i = elim i.txn.state [ vacant ↦ false | _ ↦ true ]

  -- The configuration with its defaults, and that of the session.
  unfoldable pub resolved : Cfg M → Cfg M
  resolved cfg = record cfg {
    p4_us = or_default cfg.p4_us 20000000;
    max_pending = or_default cfg.max_pending 32;
    max_resp_apdu = or_default cfg.max_resp_apdu cfg.out_buf_size;
  }

  -- What `nx_uds_server_init` asks of a configuration.
  unfoldable pub accepts : Cfg M → Server → Bool
  accepts cfg srv =
      if length cfg.services == 0
      then false
      else if not (rows_valid cfg.services)
      then false
      else if ltb cfg.req_buf_size 1
      then false
      else if ltb cfg.out_buf_size 3
      then false
      else if not (cfg.max_resp_apdu == 0) && ltb cfg.out_buf_size cfg.max_resp_apdu
      then false
      else not
          (leb (fresh srv).p2_us cfg.p2_adjust_us || leb (fresh srv).p2_star_us cfg.p2_adjust_us)

  -- `nx_uds_server_init`, on an instance with its buffers; nothing where it returns false.
  unfoldable pub init : Instance M → Cfg M → Option (Instance M)
  init i cfg =
      if not (accepts cfg i.srv)
      then none
      else some (record i { cfg = resolved cfg; srv = fresh i.srv; txn = blank_txn })
