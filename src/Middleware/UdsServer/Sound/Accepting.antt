-- ===== src/Middleware/UdsServer/Sound/Accepting.antt =====
-- src/middleware/nx_uds_server.c: nx_uds_server_indicate, on a server that is sound.
use nx_c_util.Base.{
  ℕ, ◌≡◌, inl, inr, refl, sym, ap, ◌∙◌, arith, true, false, not, ◌&&◌, ◌||◌, none, some, List,
  length, ltb, leb, ◌==◌, if-elim, bit_and, get_or, set, take, copy_at, get_elem?, length-set,
}
use mathlib.Core.Path.{subst}
use nx_c_util.Middleware.Uds.{request, positive_sid}
use nx_c_util.Middleware.UdsServer.{put_negative}
use nx_c_util.Middleware.UdsServer.Table.{
  Row, session_bit, is_response_sid, find_sub, find_row, has_sub_function, row_in_session,
  sub_session_mask, lists_no_subs,
}
use nx_c_util.Middleware.UdsServer.Instance.{
  running, sending, is_vacant, Instance, with_ctx, txn_row, negative_suppressed,
}
use nx_c_util.Middleware.UdsServer.Process.{ServerRet, txn_max_pending}
use nx_c_util.Middleware.UdsServer.Indicate.{
  txn_begin, refuse_before, enter_handler, check_sub, read_sub, take_request, dispatch, look_up,
  arm, too_long, indicate,
}
use nx_c_util.Middleware.UdsServer.Sound.{
  Careful, Carries, at_rest, at_send, Sound, settled, at_work, put-Carries, turn-Carries,
  txn_end-Settled, refuse-Settled, run_handler-Sound,
}

module _ {M : Type 0} where
  -- A server whose buffer a transaction may take.
  Idle : Instance M → Type 0
  Idle i = Careful i.cfg × (length i.out_buf ≡ i.cfg.out_buf_size)

  Begun : Instance M → Type 0
  Begun i = Carries i × (i.txn.state ≡ running)

  txn_begin-Begun :
      (i : Instance M) (row len ta_type link : ℕ)
      → Idle i
      → Begun (txn_begin i row len ta_type link)
  unfolding Idle Begun txn_begin txn_max_pending txn_row
  txn_begin-Begun i row len ta_type link (c, k) =
      (record { careful = c; kept = k; buffer = k; cap = ground arith; count = omega arith }, refl)

  refuse_before-Sound :
      (i : Instance M) (row len ta_type link nrc : ℕ)
      → Idle i
      → Sound (refuse_before i row len ta_type link nrc)
  unfolding Begun refuse_before put_negative
  refuse_before-Sound i row len ta_type link nrc h =
      let begun = txn_begin i row len ta_type link in
      let i' : Instance M = with_ctx begun (put_negative begun.txn.ctx begun.txn.ctx.sid nrc) in
      let c = put-Carries begun nrc (txn_begin-Begun i row len ta_type link h).0 in
      if-elim Sound (negative_suppressed i' ta_type nrc)
        (λ silent. (settled (txn_end-Settled i' c)))
        (λ heard.
          (settled (
            at_send (turn-Carries i' sending true c)
              (record { answered = refl; some_bytes = omega arith; within = c.careful.room })
              (inl refl))))

  enter_handler-Sound : (i : Instance M) → Begun i → Sound (enter_handler i)
  unfolding Begun enter_handler txn_max_pending txn_row
  enter_handler-Sound i (c, at) =
      run_handler-Sound _ request
        (record {
          careful = c.careful;
          kept = c.kept;
          buffer = length-set i.txn.ctx.out 0 (positive_sid i.txn.ctx.sid) ∙ c.buffer;
          cap = c.cap;
          count = c.count;
        })
        at

  check_sub-Sound :
      (i : Instance M) (row : Row M) (subs : List ℕ) → Begun i → Sound (check_sub i row subs)
  unfolding Begun check_sub
  check_sub-Sound i row subs b =
      let at = find_sub subs i.txn.ctx.sub in
      if-elim Sound (leb (length subs) at) (λ unknown. (settled (refuse-Settled i 0x12 b.0)))
        (λ known.
          (if-elim Sound (bit_and (sub_session_mask row at) (session_bit i.srv.session) == 0)
            (λ barred. (settled (refuse-Settled i 0x7E b.0)))
            (λ open_now. (enter_handler-Sound i b))))

  read_sub-Begun : (i : Instance M) → Begun i → Begun (read_sub i)
  unfolding Begun read_sub txn_max_pending txn_row
  read_sub-Begun i (c, at) = (
    record { careful = c.careful; kept = c.kept; buffer = c.buffer; cap = c.cap; count = c.count },
    at,
  )

  take_request-Sound : (i : Instance M) (row : Row M) → Begun i → Sound (take_request i row)
  unfolding take_request
  take_request-Sound i row b =
      if-elim Sound (not (has_sub_function row)) (λ plain. (enter_handler-Sound i b))
        (λ sub.
          (if-elim Sound (lists_no_subs row) (λ free. (enter_handler-Sound _ (read_sub-Begun i b)))
            (λ listed. (check_sub-Sound _ row _ (read_sub-Begun i b)))))

  dispatch-Sound :
      (i : Instance M) (row : Row M) (at len ta_type link : ℕ)
      → Idle i
      → Sound (dispatch i row at len ta_type link)
  unfolding dispatch
  dispatch-Sound i row at len ta_type link h =
      let refused : (nrc : ℕ) → Sound (refuse_before i at len ta_type link nrc) =
        λ nrc. refuse_before-Sound i at len ta_type link nrc h in
      if-elim Sound (not (row_in_session row i.srv.session)) (λ outside. (refused 0x7F))
        (λ inside.
          (if-elim Sound (not (row.sec_level == 0) && ltb i.srv.sec_level row.sec_level)
            (λ locked. (refused 0x33))
            (λ unlocked.
              (if-elim Sound
                (ltb len row.min_len || (not (row.max_len == 0) && ltb row.max_len len))
                (λ ill. (refused 0x13))
                (λ well. (take_request-Sound _ row (txn_begin-Begun i at len ta_type link h)))))))

  look_up-Sound :
      (i : Instance M) (sid len ta_type link : ℕ) → Idle i → Sound (look_up i sid len ta_type link)
  unfolding look_up
  look_up-Sound i sid len ta_type link h =
      let at = find_row i.cfg.services sid in
      elim (get_elem? i.cfg.services at)
        as (λ r. Sound (elim r [
          | none ↦ refuse_before i (length i.cfg.services) len ta_type link 0x11
          | some row ↦ dispatch i row at len ta_type link
        ])) [
          | none ↦ refuse_before-Sound i (length i.cfg.services) len ta_type link 0x11 h
          | some row ↦ dispatch-Sound i row at len ta_type link h
        ]

  arm-Idle : (i : Instance M) → Idle i → Idle (arm i)
  unfolding Idle arm
  arm-Idle i h = if-elim Idle (i.srv.session == 1) (λ default. h) (λ other. h)

  -- A server at rest takes the request, or leaves it.
  indicate-Idle :
      (i : Instance M) (req : List ℕ) (len ta_type link : ℕ)
      → Sound i
      → Idle i
      → Sound (indicate i req len ta_type link).1
  unfolding Idle indicate
  indicate-Idle i req len ta_type link h (c, k) =
      let sid = get_or req 0 0 in
      let kept : Instance M = record i { req_buf = copy_at i.req_buf 0 (take len req) } in
      let named : Instance M = record i { req_buf = set i.req_buf 0 sid } in
      let at_ret : ServerRet × Instance M → Type 0 = λ r. Sound r.1 in
      if-elim at_ret (len == 0) (λ empty. h)
        λ e0.
          if-elim at_ret (not (link == i.cfg.link)) (λ foreign. h)
            λ e1.
              if-elim at_ret (not (is_vacant i.txn.state)) (λ busy. h)
                λ e2.
                  if-elim at_ret (not i.cfg.accept_rsp_range_sid && is_response_sid sid)
                    (λ answer. h)
                    λ e3.
                      if-elim at_ret (too_long i.cfg len)
                        (λ over.
                          refuse_before-Sound named (length i.cfg.services) 1 ta_type link 0x13
                            (c, k))
                        (λ fits.
                          look_up-Sound (arm kept) sid len ta_type link (arm-Idle kept (c, k)))

  indicate-busy :
      (i : Instance M) (req : List ℕ) (len ta_type link : ℕ)
      → is_vacant i.txn.state ≡ false
      → (indicate i req len ta_type link).1 ≡ i
  unfolding indicate
  indicate-busy i req len ta_type link e = ground arith

  pub indicate-Sound :
      (i : Instance M) (req : List ℕ) (len ta_type link : ℕ)
      → Sound i
      → Sound (indicate i req len ta_type link).1
  unfolding Idle
  indicate-Sound i req len ta_type link (settled (at_rest c k e)) =
      indicate-Idle i req len ta_type link (settled (at_rest c k e)) (c, k)
  indicate-Sound i req len ta_type link (settled (at_send c h (inl e))) =
      subst Sound (sym (indicate-busy i req len ta_type link (ap is_vacant e)))
        (settled (at_send c h (inl e)))
  indicate-Sound i req len ta_type link (settled (at_send c h (inr e))) =
      subst Sound (sym (indicate-busy i req len ta_type link (ap is_vacant e)))
        (settled (at_send c h (inr e)))
  indicate-Sound i req len ta_type link (at_work c e) =
      subst Sound (sym (indicate-busy i req len ta_type link (ap is_vacant e))) (at_work c e)
