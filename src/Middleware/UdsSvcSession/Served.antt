-- ===== src/Middleware/UdsSvcSession/Served.antt =====
-- src/middleware/nx_uds_svc_session.c under nx_uds_server.c: the whole exchange that changes the session.
pub mod Asked
pub mod Exchange
use nx_c_util.Base.{
  ℕ, ◌+◌, ◌≤◌, ◌<◌, ◌≡◌, ◌≢◌, ◌⊎◌, inl, inr, refl, sym, ap, ◌∙◌, arith, Bool, true, false, not,
  ◌&&◌, ◌||◌, Option, none, some, List, [], ◌∷◌, length, ltb, leb, ◌==◌, if◌then◌else◌, if-true,
  if-false, if-elim, Bool-cases, get_elem?, get_or, set, take, copy_at, ◌+32◌,
}
use mathlib.Core.Path.{subst}
use nx_c_util.Middleware.Uds.{
  Phase, request, response, confirm, link_error, Ctx, Outcome, done, positive_sid,
}
use nx_c_util.Middleware.UdsServer.{
  Server, session_in_range, set_session, enter_session, arm_s3, check_s3,
}
use nx_c_util.Middleware.UdsServer.Table.{Handler, Row}
use nx_c_util.Middleware.UdsServer.Instance.{
  OutFn, Cfg, TxnState, vacant, running, sending, awaiting, is_awaiting, Txn, Instance, now, read,
  with_ctx, txn_row, row_handler, left_by, call, notify, txn_end, apply_disposition, apply_done,
  answer_ready, sends_positive,
}
use nx_c_util.Middleware.UdsServer.Instance.Known.{notify-known, run_handler-known}
use nx_c_util.Middleware.UdsServer.Process.{
  ServerRet, ok, err_param, err_state, txn_p4, give_out, offer, expire_session, limit, advance,
  deliver, process, confirm_link,
}
use nx_c_util.Middleware.UdsServer.Process.Ending.{process-through, expire_session-Reports}
use nx_c_util.Middleware.UdsServer.Indicate.{
  txn_begin, enter_handler, check_sub, read_sub, take_request, dispatch, look_up, arm, too_long,
  indicate,
}
use nx_c_util.Middleware.UdsSvcSession.{
  at_phase, announce, answered_positively, answer, windows, allowed, accept, control,
}
use nx_c_util.Middleware.UdsSvcSession.Acting.{
  is_closing, windows-Decides, control-closes, control-later,
}

-- The phase that the carrier's word is passed on in.
word_other : (b : Bool) → (if b then confirm else link_error) ≢ request
word_other true e = absurd (cc e)
word_other false e = absurd (cc e)

word_closing : (b : Bool) → (is_closing (if b then confirm else link_error) && true) ≡ b
word_closing true = refl
word_closing false = refl

not_under : (n : ℕ) → 6 ≤ n → ltb n 6 ≡ false
not_under n h = ground arith

-- A carrier that takes the answer.
abbrev pub Takes : {M : Type 0} → Instance M → Type 0
Takes i = (give_out i i.txn.ctx.out i.txn.ctx.out_len).0 ≡ true

module _ {M : Type 0} (c : nx_c_util.Middleware.UdsSvcSession.Cfg M) (s : ℕ) where
  -- The transaction of a request for a session that the handler has accepted.
  pub record Answering (i : Instance M) : Type 0 where
    pub handler : row_handler (txn_row i) ≡ some (control c)
    pub sid : i.txn.ctx.sid ≡ 0x10
    pub sub : i.txn.ctx.sub ≡ s
    pub len : 2 ≤ i.txn.ctx.out_len
    pub first : get_or i.txn.ctx.out 0 0 ≡ 0x50

  Answering-positive : (i : Instance M) → Answering i → answered_positively i.txn.ctx ≡ true
  unfolding answered_positively
  Answering-positive i a =
      let l = a.len in
      let e : get_or i.txn.ctx.out 0 0 ≡ positive_sid i.txn.ctx.sid =
        a.first ∙ ap positive_sid (sym a.sid) in
      ground arith

  -- The word that the answer reached the client, or did not.
  pub confirm-Acts :
      (i : Instance M) (result : ℕ)
      → Answering i
      → i.txn.state ≡ awaiting
      → let o = confirm_link i i.cfg.link result in
        (o.0 ≡ ok)
        × (o.1.txn.state ≡ vacant)
        × (o.1.srv ≡ (if result == 0 then set_session (now i) i.srv s else i.srv))
  unfolding confirm_link txn_end left_by call txn_row answered_positively
  confirm-Acts i result a at =
      let i' : Instance M = with_ctx i (record i.txn.ctx { result = result }) in
      let p : Phase = if result == 0 then confirm else link_error in
      let ended : ServerRet × Instance M = (ok, txn_end (notify i' p)) in
      let e : confirm_link i i.cfg.link result ≡ ended =
        if-false {b = not (i.cfg.link == i.cfg.link)} (err_param, i) _ (ground arith)
        ∙ if-false {b = not (is_awaiting i.txn.state)} (err_state, i) _
            (ap (λ t. not (is_awaiting t)) at) in
      let told = notify-known i' p (control c) a.handler in
      let acts =
        control-closes c (now i) (record i'.txn.ctx { phase = p }) i.srv i.app true s
          (word_other (result == 0)) (Answering-positive i a) a.sub in
      (
        ap (λ (r : ServerRet × Instance M). r.0) e,
        ap (λ (r : ServerRet × Instance M). r.1.txn.state) e,
        ap (λ (r : ServerRet × Instance M). r.1.srv) e
            ∙ ap (λ (x : Instance M). x.srv) told
            ∙ acts
            ∙ ap (λ b. if b then set_session (now i) i.srv s else i.srv)
                (word_closing (result == 0)),
      )

  -- What is beside the transaction does not matter.
  aside-Answering :
      (i : Instance M) (srv : Server) (app : M) (reads : ℕ)
      → Answering i
      → Answering (record i { srv = srv; app = app; reads = reads })
  unfolding txn_row
  aside-Answering i srv app reads a = record {
    handler = a.handler;
    sid = a.sid;
    sub = a.sub;
    len = a.len;
    first = a.first;
  }

  expire_session-Answering : (i : Instance M) → Answering i → Answering (expire_session i)
  unfolding expire_session
  expire_session-Answering i a =
      if-elim Answering i.srv.s3_armed
        (λ armed. aside-Answering i (check_s3 (now i) i.srv) i.app (i.reads + 1) a) (λ off. a)

  offer-Answering :
      (i : Instance M)
      → Answering i
      → Takes i
      → Answering (offer i) × ((offer i).txn.state ≡ awaiting) × ((offer i).cfg ≡ i.cfg)
  unfolding offer txn_row
  offer-Answering i a taken =
      let i' : Instance M = record i { app = (give_out i i.txn.ctx.out i.txn.ctx.out_len).1 } in
      let e =
        if-true
          (record (read i') {
            txn = record i'.txn { state = awaiting; deadline = now i' +32 txn_p4 i' };
          })
          _ taken in
      (
        subst Answering (sym e) (record {
          handler = a.handler;
          sid = a.sid;
          sub = a.sub;
          len = a.len;
          first = a.first;
        }),
        ap (λ (o : Instance M). o.txn.state) e,
        ap (λ (o : Instance M). o.cfg) e,
      )

  pub process-Answering :
      (i : Instance M)
      → Answering i
      → i.txn.state ≡ sending
      → Takes (expire_session i)
      → Answering (process i) × ((process i).txn.state ≡ awaiting) × ((process i).cfg ≡ i.cfg)
  unfolding limit advance deliver
  process-Answering i a at taken =
      let i1 = expire_session i in
      let live = (expire_session-Reports i).state ∙ at in
      let e : process i ≡ offer i1 =
        process-through i sending sending at live ∙ ap (λ t. deliver t i1) live in
      let (a', at', same) = offer-Answering i1 (expire_session-Answering i a) taken in
      subst (λ (o : Instance M). Answering o × (o.txn.state ≡ awaiting) × (o.cfg ≡ i.cfg)) (sym e)
        (a', at', same ∙ (expire_session-Reports i).cfg)

  -- The handler accepts.
  accept-agreed :
      (srv : Server) (ctx : Ctx) (app : M)
      → session_in_range ctx.sub ≡ true
      → (allowed c.allow_fn app ctx.session ctx.sub).0 ≡ true
      → 6 ≤ ctx.out_cap
      → accept c srv ctx app
        ≡ answer (windows srv ctx) (srv, (allowed c.allow_fn app ctx.session ctx.sub).1)
  unfolding accept announce
  accept-agreed srv ctx app ranged agreed room =
      if-false {b = not (session_in_range ctx.sub)} _ _ (ap not ranged)
      ∙ if-false {b = not (allowed c.allow_fn app ctx.session ctx.sub).0} _ _ (ap not agreed)
      ∙ if-false {b = ltb ctx.out_cap 6} _ _ (ground arith)

  -- A request that the table has let through, and that asks the handler for what it agrees to.
  pub record Asking (i : Instance M) : Type 0 where
    pub handler : row_handler (txn_row i) ≡ some (control c)
    pub sid : i.txn.ctx.sid ≡ 0x10
    pub sub : i.txn.ctx.sub ≡ s
    pub ranged : session_in_range i.txn.ctx.sub ≡ true
    pub agreed : (allowed c.allow_fn i.app i.txn.ctx.session i.txn.ctx.sub).0 ≡ true
    pub room : 6 ≤ i.txn.ctx.out_cap
    pub buffer : 1 ≤ length i.txn.ctx.out
    pub loud : i.txn.ctx.suppress_pos ≡ false
    pub physical : i.txn.ctx.ta_type ≡ 0

  front-set : (xs : List ℕ) (v : ℕ) → 1 ≤ length xs → get_or (set xs 0 v) 0 0 ≡ v
  front-set [] v h = absurd (omega arith)
  front-set (x ∷ xs) v h = refl

  sends-loud :
      (i : Instance M)
      → i.txn.ctx.suppress_pos ≡ false
      → i.txn.ctx.ta_type ≡ 0
      → sends_positive i ≡ true
  unfolding sends_positive
  sends-loud i loud physical = ground arith

  pub enter_handler-Answering :
      (i : Instance M)
      → Asking i
      → Answering (enter_handler i)
        × ((enter_handler i).txn.state ≡ sending)
        × ((enter_handler i).srv ≡ i.srv)
        × ((enter_handler i).cfg ≡ i.cfg)
  unfolding enter_handler call control at_phase apply_disposition apply_done answer_ready left_by
      windows txn_row
  enter_handler-Answering i a =
      let i1 : Instance M = with_ctx i (record i.txn.ctx {
        out = set i.txn.ctx.out 0 (positive_sid i.txn.ctx.sid);
        out_len = 1;
      }) in
      let ctx : Ctx = record i1.txn.ctx { nrc = 0; phase = request } in
      let o =
        answer (windows i.srv ctx) (i.srv, (allowed c.allow_fn i.app ctx.session ctx.sub).1) in
      let i2 = left_by i1 o in
      let i3 : Instance M = record i2 {
        txn = record i2.txn { answered = true; state = sending };
      } in
      let i4 = left_by i3 (call i3 (control c) response) in
      let dec = windows-Decides i.srv ctx o.state.1 in
      let step : Outcome (Server × M) → Instance M =
        λ o. apply_disposition (left_by i1 o) o.disposition in
      let e : enter_handler i ≡ i4 =
        run_handler-known i1 request (control c) a.handler
        ∙ ap step (accept-agreed i.srv ctx i.app a.ranged a.agreed a.room)
        ∙ if-false {b = ltb i.txn.ctx.out_cap 6} _ _ (not_under i.txn.ctx.out_cap a.room)
        ∙ ap (answer_ready i2) (sends-loud i2 a.loud a.physical)
        ∙ notify-known i3 response (control c) a.handler in
      subst
        (λ (o : Instance M).
          Answering o × (o.txn.state ≡ sending) × (o.srv ≡ i.srv) × (o.cfg ≡ i.cfg))
        (sym e)
        (
          record {
            handler = a.handler;
            sid = a.sid;
            sub = a.sub;
            len = omega arith;
            first =
                dec.first
                ∙ front-set i.txn.ctx.out (positive_sid i.txn.ctx.sid) a.buffer
                ∙ ap positive_sid a.sid;
          },
          refl,
          refl,
          refl,
        )
