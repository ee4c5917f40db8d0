-- ===== src/Middleware/UdsServer/Indicate.antt =====
-- src/middleware/nx_uds_server.c: accepting a request.
use nx_c_util.Base.{
  ℕ, Bool, true, not, ◌&&◌, ◌||◌, none, some, List, [], length, ltb, leb, ◌==◌, if◌then◌else◌,
  bit_and, ◌+32◌, ◌-32◌, get_or, set, take, copy_at, get_elem?,
}
use nx_c_util.Middleware.Uds.{request, positive_sid}
use nx_c_util.Middleware.UdsServer.{arm_s3, put_negative}
use nx_c_util.Middleware.UdsServer.Table.{
  Row, session_bit, suppresses_pos, sub_function, is_response_sid, find_sub, has_sub_function,
  find_row, row_in_session, sub_session_mask, lists_no_subs,
}
use nx_c_util.Middleware.UdsServer.Instance.{
  Cfg, sending, running, is_vacant, blank_txn, blank_ctx, Instance, now, read, with_ctx,
  negative_suppressed, txn_end, refuse, run_handler,
}
use nx_c_util.Middleware.UdsServer.Process.{ServerRet, ok, err_param, err_busy}

module _ {M : Type 0} where
  -- `uds_txn_begin`
  unfoldable pub txn_begin : Instance M → (row len ta_type link : ℕ) → Instance M
  txn_begin i row len ta_type link = record (read i) {
    txn = record blank_txn {
      row = row;
      started = now i;
      deadline = (now i +32 i.srv.p2_us) -32 i.cfg.p2_adjust_us;
      ctx = record blank_ctx {
        req = i.req_buf;
        req_len = len;
        sid = get_or i.req_buf 0 0;
        ta_type = ta_type;
        link = link;
        session = i.srv.session;
        sec_level = i.srv.sec_level;
        out = i.out_buf;
        out_cap =
            if ltb i.cfg.max_resp_apdu i.cfg.out_buf_size
            then i.cfg.max_resp_apdu
            else i.cfg.out_buf_size;
      };
      state = running;
    };
  }

  -- `uds_refuse_before_dispatch`
  unfoldable pub refuse_before : Instance M → (row len ta_type link nrc : ℕ) → Instance M
  refuse_before i row len ta_type link nrc =
      let begun = txn_begin i row len ta_type link in
      let i' = with_ctx begun (put_negative begun.txn.ctx begun.txn.ctx.sid nrc) in
      if negative_suppressed i' ta_type nrc
      then txn_end i'
      else record i' { txn = record i'.txn { answered = true; state = sending } }

  -- The response identifier, and the handler.
  unfoldable pub enter_handler : Instance M → Instance M
  enter_handler i =
      run_handler
        (with_ctx i (record i.txn.ctx {
          out = set i.txn.ctx.out 0 (positive_sid i.txn.ctx.sid);
          out_len = 1;
        }))
        request

  -- The sub-function among those that the row lists.
  unfoldable pub check_sub : Instance M → Row M → List ℕ → Instance M
  check_sub i row subs =
      let at = find_sub subs i.txn.ctx.sub in
      if leb (length subs) at
      then refuse i 0x12
      else if bit_and (sub_session_mask row at) (session_bit i.srv.session) == 0
      then refuse i 0x7E
      else enter_handler i

  -- The sub-function is read.
  unfoldable pub read_sub : Instance M → Instance M
  read_sub i = with_ctx i (record i.txn.ctx {
    has_sub = true;
    suppress_pos = suppresses_pos (get_or i.req_buf 1 0);
    sub = sub_function (get_or i.req_buf 1 0);
  })

  -- A request that its row accepts by its length.
  unfoldable pub take_request : Instance M → Row M → Instance M
  take_request i row =
      if not (has_sub_function row)
      then enter_handler i
      else if lists_no_subs row
      then enter_handler (read_sub i)
      else check_sub (read_sub i) row (elim row.subs [ none ↦ [] | some subs ↦ subs ])

  -- A request of a service that the table has.
  unfoldable pub dispatch : Instance M → Row M → (at len ta_type link : ℕ) → Instance M
  dispatch i row at len ta_type link =
      if not (row_in_session row i.srv.session)
      then refuse_before i at len ta_type link 0x7F
      else if not (row.sec_level == 0) && ltb i.srv.sec_level row.sec_level
      then refuse_before i at len ta_type link 0x33
      else if ltb len row.min_len || (not (row.max_len == 0) && ltb row.max_len len)
      then refuse_before i at len ta_type link 0x13
      else take_request (txn_begin i at len ta_type link) row

  -- `nx_uds_server_indicate` once the request is kept: the quiet timer, and the table.
  unfoldable pub look_up : Instance M → (sid len ta_type link : ℕ) → Instance M
  look_up i sid len ta_type link =
      let at = find_row i.cfg.services sid in
      elim (get_elem? i.cfg.services at) [
        | none ↦ refuse_before i (length i.cfg.services) len ta_type link 0x11
        | some row ↦ dispatch i row at len ta_type link
      ]

  -- The quiet timer is armed where the session has one, which reads the clock.
  unfoldable pub arm : Instance M → Instance M
  arm i =
      if i.srv.session == 1
      then record i { srv = arm_s3 0 i.srv }
      else record (read i) { srv = arm_s3 (now i) i.srv }

  -- Whether the request is too long to be kept.
  unfoldable pub too_long : Cfg M → (len : ℕ) → Bool
  too_long cfg len =
      ltb cfg.req_buf_size len || (not (cfg.max_req_apdu == 0) && ltb cfg.max_req_apdu len)

  -- `nx_uds_server_indicate` with a request.
  unfoldable pub indicate :
      Instance M → (req : List ℕ) → (len ta_type link : ℕ) → ServerRet × Instance M
  indicate i req len ta_type link =
      let sid = get_or req 0 0 in
      let kept = record i { req_buf = copy_at i.req_buf 0 (take len req) } in
      let named = record i { req_buf = set i.req_buf 0 sid } in
      if len == 0
      then (err_param, i)
      else if not (link == i.cfg.link)
      then (err_param, i)
      else if not (is_vacant i.txn.state)
      then (err_busy, i)
      else if not i.cfg.accept_rsp_range_sid && is_response_sid sid
      then (err_param, i)
      else if too_long i.cfg len
      then (ok, refuse_before named (length i.cfg.services) 1 ta_type link 0x13)
      else (ok, look_up (arm kept) sid len ta_type link)
