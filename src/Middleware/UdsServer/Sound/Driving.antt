-- ===== src/Middleware/UdsServer/Sound/Driving.antt =====
-- src/middleware/nx_uds_server.c: nx_uds_server_process and nx_uds_server_confirm, on a server that is sound.
use nx_c_util.Base.{
  ℕ, ◌+◌, ◌<◌, ◌≡◌, ◌⊎◌, inl, inr, refl, sym, ap, ◌∙◌, arith, not, ◌||◌, leb, ◌==◌, [], ◌∷◌,
  if◌then◌else◌, if-true, if-false, Bool-cases, if-elim, ◌+32◌, reached,
}
use mathlib.Core.Path.{subst}
use nx_c_util.Middleware.Uds.{resume, abort, confirm, link_error}
use nx_c_util.Middleware.UdsServer.{check_s3}
use nx_c_util.Middleware.UdsServer.Instance.{
  vacant, running, sending, awaiting, is_awaiting, Txn, Instance, now, read, with_ctx, txn_row,
  notify,
}
use nx_c_util.Middleware.UdsServer.Process.{
  ServerRet, txn_p4, txn_p4_nrc, txn_max_pending, give_out, pend_refused, pend_taken, emit_pending,
  expire_session, give_up, pend, fail_link, resume_or_fail, offer, wait_word, limit, advance,
  deliver, process, confirm_link,
}
use nx_c_util.Middleware.UdsServer.Sound.{
  Carries, Offers, Settled, at_rest, at_send, Sound, settled, at_work, notify-Carries,
  txn_end-Settled, refuse-Settled, run_handler-Sound,
}
use nx_c_util.Middleware.UdsServer.Sound.Keeping.{
  aside-Carries, aside-Offers, aside-Settled, aside-Sound, read-Carries, result-Carries,
  pend_taken-Carries, pend_refused-Carries,
}

module _ {M : Type 0} where
  expire_session-Sound : (i : Instance M) → Sound i → Sound (expire_session i)
  unfolding expire_session
  expire_session-Sound i h =
      if-elim Sound i.srv.s3_armed
        (λ armed. (aside-Sound i i.req_buf (check_s3 (now i) i.srv) i.app (i.reads + 1) h))
        (λ off. h)

  -- A server whose handler may be called again, with a notification to spare.
  Ready : Instance M → Type 0
  Ready i =
      Settled i ⊎ (Carries i × (i.txn.state ≡ running) × (i.txn.pend_count < txn_max_pending i))

  give_up-Ready : (i : Instance M) → Carries i → i.txn.state ≡ running → Ready (give_up i)
  unfolding Ready give_up txn_max_pending txn_row
  give_up-Ready i c at =
      let over =
        reached (now i) (i.txn.started +32 txn_p4 i) || leb (txn_max_pending i) i.txn.pend_count in
      let i' = notify (read i) abort in
      elim (Bool-cases over) [
        | inl late ↦ inl (
            subst Settled (sym (if-true _ _ late)) (
              refuse-Settled i' (txn_p4_nrc i') (notify-Carries (read i) abort (read-Carries i c))))
        | inr early ↦
            subst Ready (sym (if-false _ _ early)) (inr (read-Carries i c, at, ground arith))
      ]

  -- The states of a settled server.
  parked :
      (i : Instance M)
      → Settled i
      → (i.txn.state ≡ vacant) ⊎ ((i.txn.state ≡ sending) ⊎ (i.txn.state ≡ awaiting))
  parked i (at_rest c k e) = inl (ap (λ (t : Txn). t.state) e)
  parked i (at_send c h e) = inr e

  limit-Ready : (i : Instance M) → Sound i → Ready (limit i.txn.state i)
  unfolding Ready limit
  limit-Ready i (settled h) = elim (parked i h) [
    | inl e ↦ subst (λ s. Ready (limit s i)) (sym e) (inl h)
    | inr (inl e) ↦ subst (λ s. Ready (limit s i)) (sym e) (inl h)
    | inr (inr e) ↦ subst (λ s. Ready (limit s i)) (sym e) (inl h)
  ]
  limit-Ready i (at_work c e) = subst (λ s. Ready (limit s i)) (sym e) (give_up-Ready i c e)

  -- A server whose handler is not done.
  Works : Instance M → Type 0
  Works i = Carries i × (i.txn.state ≡ running)

  pend_taken-state : (i : Instance M) → (pend_taken i).txn.state ≡ i.txn.state
  unfolding pend_taken
  pend_taken-state i = refl

  pend_refused-state : (i : Instance M) → (pend_refused i).txn.state ≡ i.txn.state
  unfolding pend_refused
  pend_refused-state i = elim (Bool-cases i.txn.pend_stuck) [
    | inl stuck ↦ ap (λ (x : Instance M). x.txn.state) (if-true _ _ stuck)
    | inr moving ↦ ap (λ (x : Instance M). x.txn.state) (if-false _ _ moving)
  ]

  emit_pending-Works :
      (i : Instance M)
      → Carries i
      → i.txn.state ≡ running
      → i.txn.pend_count < txn_max_pending i
      → Works (emit_pending i)
  unfolding Works emit_pending txn_max_pending txn_row
  emit_pending-Works i c at below =
      let sent = give_out i (0x7F ∷ i.txn.ctx.sid ∷ 0x78 ∷ []) 3 in
      let i' : Instance M = record i { app = sent.1 } in
      let c' : Carries i' = aside-Carries i i.req_buf i.srv sent.1 i.reads c in
      if-elim Works sent.0 (λ taken. (pend_taken-Carries i' c' below, pend_taken-state i' ∙ at))
        (λ kept. (pend_refused-Carries i' c', pend_refused-state i' ∙ at))

  pend-Works :
      (i : Instance M)
      → Carries i
      → i.txn.state ≡ running
      → i.txn.pend_count < txn_max_pending i
      → Works (pend i)
  unfolding Works pend txn_max_pending txn_row
  pend-Works i c at below =
      if-elim Works (reached (now i) i.txn.deadline)
        (λ late. (emit_pending-Works (read i) (read-Carries i c) at below))
        (λ early. (read-Carries i c, at))

  fail_link-Settled : (i : Instance M) (result : ℕ) → Carries i → Settled (fail_link i result)
  unfolding fail_link
  fail_link-Settled i result c =
      txn_end-Settled _ (notify-Carries _ link_error (result-Carries i result c))

  resume_or_fail-Sound :
      (i : Instance M) → Carries i → i.txn.state ≡ running → Sound (resume_or_fail i)
  unfolding resume_or_fail
  resume_or_fail-Sound i c at =
      if-elim Sound i.txn.pend_stuck
        (λ stuck.
          (if-elim Sound (reached (now i) i.txn.pend_give_up)
            (λ late. (settled (fail_link-Settled (read i) 9 (read-Carries i c))))
            (λ early. (run_handler-Sound (read i) resume (read-Carries i c) at))))
        (λ moving. (run_handler-Sound i resume c at))

  advance-Sound : (i : Instance M) → Ready i → Sound (advance i.txn.state i)
  unfolding Ready advance Works
  advance-Sound i (inl h) = elim (parked i h) [
    | inl e ↦ subst (λ s. Sound (advance s i)) (sym e) (settled h)
    | inr (inl e) ↦ subst (λ s. Sound (advance s i)) (sym e) (settled h)
    | inr (inr e) ↦ subst (λ s. Sound (advance s i)) (sym e) (settled h)
  ]
  advance-Sound i (inr (c, e, below)) =
      let w = pend-Works i c e below in
      subst (λ s. Sound (advance s i)) (sym e) (resume_or_fail-Sound (pend i) w.0 w.1)

  offer-Settled :
      (i : Instance M) → Carries i → Offers i → i.txn.state ≡ sending → Settled (offer i)
  unfolding offer txn_max_pending txn_row
  offer-Settled i c h at =
      let sent = give_out i i.txn.ctx.out i.txn.ctx.out_len in
      let i' : Instance M = record i { app = sent.1 } in
      let c' : Carries i' = aside-Carries i i.req_buf i.srv sent.1 i.reads c in
      let h' : Offers i' = aside-Offers i i.req_buf i.srv sent.1 i.reads h in
      if-elim Settled sent.0
        (λ taken.
          (at_send
            (record {
              careful = c.careful;
              kept = c.kept;
              buffer = c.buffer;
              cap = c.cap;
              count = c.count;
            })
            (record { answered = h.answered; some_bytes = h.some_bytes; within = h.within })
            (inr refl)))
        (λ kept.
          (if-elim Settled (reached (now i') (i'.txn.started +32 txn_p4 i'))
            (λ late. (txn_end-Settled _ (notify-Carries (read i') abort (read-Carries i' c'))))
            (λ early.
              (aside-Settled i' i'.req_buf i'.srv i'.app (i'.reads + 1) (at_send c' h' (inl at))))))

  wait_word-Settled : (i : Instance M) → Carries i → Settled i → Settled (wait_word i)
  unfolding wait_word
  wait_word-Settled i c h =
      if-elim Settled (reached (now i) i.txn.deadline)
        (λ late. (fail_link-Settled (read i) 9 (read-Carries i c)))
        (λ early. (aside-Settled i i.req_buf i.srv i.app (i.reads + 1) h))

  deliver-Sound : (i : Instance M) → Sound i → Sound (deliver i.txn.state i)
  unfolding deliver
  deliver-Sound i (at_work c e) = subst (λ s. Sound (deliver s i)) (sym e) (at_work c e)
  deliver-Sound i (settled (at_rest c k e)) =
      subst (λ s. Sound (deliver s i)) (sym (ap (λ (t : Txn). t.state) e)) (settled (at_rest c k e))
  deliver-Sound i (settled (at_send c h (inl e))) =
      subst (λ s. Sound (deliver s i)) (sym e) (settled (offer-Settled i c h e))
  deliver-Sound i (settled (at_send c h (inr e))) =
      subst (λ s. Sound (deliver s i)) (sym e)
        (settled (wait_word-Settled i c (at_send c h (inr e))))

  pub process-Sound : (i : Instance M) → Sound i → Sound (process i)
  unfolding process
  process-Sound i h = deliver-Sound _ (advance-Sound _ (limit-Ready _ (expire_session-Sound i h)))

  -- The word of the carrier ends a transaction that has a buffer.
  confirm_with :
      (i : Instance M) (link result : ℕ)
      → Sound i
      → Carries i
      → Sound (confirm_link i link result).1
  unfolding confirm_link
  confirm_with i link result h c =
      let i' : Instance M = with_ctx i (record i.txn.ctx { result = result }) in
      if-elim (λ (r : ServerRet × Instance M). Sound r.1) (not (link == i.cfg.link)) (λ foreign. h)
        (λ ours.
          (if-elim (λ (r : ServerRet × Instance M). Sound r.1) (not (is_awaiting i.txn.state))
            (λ stray. h)
            (λ due.
              (settled (
                txn_end-Settled _ (
                  notify-Carries i' (if result == 0 then confirm else link_error)
                    (result-Carries i result c)))))))

  confirm_at_rest :
      (i : Instance M) (link result : ℕ) → i.txn.state ≡ vacant → (confirm_link i link result).1 ≡ i
  unfolding confirm_link
  confirm_at_rest i link result e = ground arith

  pub confirm_link-Sound :
      (i : Instance M) (link result : ℕ) → Sound i → Sound (confirm_link i link result).1
  confirm_link-Sound i link result (at_work c e) = confirm_with i link result (at_work c e) c
  confirm_link-Sound i link result (settled (at_send c h e)) =
      confirm_with i link result (settled (at_send c h e)) c
  confirm_link-Sound i link result (settled (at_rest c k e)) =
      subst Sound (sym (confirm_at_rest i link result (ap (λ (t : Txn). t.state) e)))
        (settled (at_rest c k e))
