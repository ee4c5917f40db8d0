-- ===== src/Middleware/UdsServer/Process/Ending.antt =====
-- src/middleware/nx_uds_server.c: the end of a transaction that is past its limit.
use nx_c_util.Base.{
  ℕ, ◌+◌, ◌≤◌, ◌<◌, ◌≡◌, ◌⊎◌, inl, inr, refl, sym, ap, ap₂, ◌∙◌, get_elem?, ◌||◌, arith, Bool, true,
  false, not, none, some, leb, if◌then◌else◌, if-true, if-false, Bool-cases, ◌+32◌, reached,
}
use mathlib.Core.Path.{subst}
use nx_c_util.Middleware.Uds.{silence, response, abort}
use nx_c_util.Middleware.UdsServer.{put_negative, check_s3}
use nx_c_util.Middleware.UdsServer.Instance.{
  Cfg, TxnState, vacant, running, sending, awaiting, Instance, now, read, with_ctx, txn_row, notify,
  txn_end, answer_ready, refuse, negative_suppressed,
}
use nx_c_util.Middleware.UdsServer.Instance.Reports.{Reports, same-Reports, notify-Reports}
use nx_c_util.Middleware.UdsServer.Process.{
  or_default, txn_max_pending, txn_p4, txn_p4_nrc, give_out, expire_session, give_up, fail_link,
  offer, wait_word, limit, advance, deliver, process,
}

module _ {M : Type 0} where
  pub txn_end-vacant : (i : Instance M) → (txn_end i).txn.state ≡ vacant
  unfolding txn_end
  txn_end-vacant i = refl

  -- At so many readings to come, the clock is past the limit of the transaction.
  pub record Overdue (i : Instance M) (readings : ℕ) : Type 0 where
    pub past :
        (n : ℕ)
        → i.reads ≤ n
        → n < i.reads + readings
        → reached (i.cfg.get_us n) (i.txn.started +32 txn_p4 i) ≡ true

  txn_p4-Reports : (i o : Instance M) → Reports i o → txn_p4 o ≡ txn_p4 i
  unfolding txn_p4 txn_row
  txn_p4-Reports i o r =
      ap₂
        (λ (c : Cfg M) (n : ℕ).
          or_default (elim (get_elem? c.services n) [ none ↦ 0 | some row ↦ row.p4_us ]) c.p4_us)
        r.cfg r.row

  Reports-Overdue : (i o : Instance M) (k : ℕ) → Reports i o → Overdue i (k + 1) → Overdue o k
  Reports-Overdue i o k r h = record {
    past = λ n l u.
        ap₂ (λ (c : Cfg M) (d : ℕ). reached (c.get_us n) d) r.cfg
          (ap₂ (λ a b. a +32 b) r.started (txn_p4-Reports i o r))
        ∙ h.past n (let a = r.later in omega arith) (let b = r.soon in omega arith);
  }

  -- A transaction that is over, or whose answer is offered past its limit.
  Closing : Instance M → Type 0
  Closing o = (o.txn.state ≡ vacant) ⊎ ((o.txn.state ≡ sending) × Overdue o 1)

  answer_ready-Closing :
      (i : Instance M) (send : Bool) → Overdue i 2 → Closing (answer_ready i send)
  unfolding Closing answer_ready txn_p4 txn_row
  answer_ready-Closing i false h = inl (txn_end-vacant (notify i silence))
  answer_ready-Closing i true h =
      let i' : Instance M = record i { txn = record i.txn { answered = true; state = sending } } in
      let r = notify-Reports i' response in
      let h' : Overdue i' 2 = record { past = h.past } in
      inr (r.state, Reports-Overdue i' (notify i' response) 1 r h')

  refuse-Closing : (i : Instance M) (nrc : ℕ) → Overdue i 2 → Closing (refuse i nrc)
  unfolding refuse txn_p4 txn_row
  refuse-Closing i nrc h =
      let i' : Instance M = with_ctx i (put_negative i.txn.ctx i.txn.ctx.sid nrc) in
      let h' : Overdue i' 2 = record { past = h.past } in
      answer_ready-Closing i' (not (negative_suppressed i' i'.txn.ctx.ta_type nrc)) h'

  give_up-Closing : (i : Instance M) → Overdue i 4 → Closing (give_up i)
  unfolding give_up txn_p4 txn_row
  give_up-Closing i h =
      let i' = notify (read i) abort in
      let h' : Overdue (read i) 3 = record {
        past = λ n l u. h.past n (omega arith) (omega arith);
      } in
      let due : reached (now i) (i.txn.started +32 txn_p4 i) ≡ true =
        h.past i.reads (omega arith) (omega arith) in
      subst Closing
        (sym (
          if-true
            {b = reached (now i) (i.txn.started +32 txn_p4 i)
              || leb (txn_max_pending i) i.txn.pend_count}
            _ _ (ground arith)))
        (refuse-Closing i' (txn_p4_nrc i')
          (Reports-Overdue (read i) i' 2 (notify-Reports (read i) abort) h'))

  -- A transaction that is over, or whose answer is with the carrier.
  abbrev pub Ends : Instance M → Type 0
  Ends o = (o.txn.state ≡ vacant) ⊎ (o.txn.state ≡ awaiting)

  vacant-Ends : (o : Instance M) → o.txn.state ≡ vacant → Ends o
  vacant-Ends o e = inl e

  offer-Ends : (i : Instance M) → Overdue i 1 → Ends (offer i)
  unfolding offer txn_p4 txn_row
  offer-Ends i h =
      let i' : Instance M = record i { app = (give_out i i.txn.ctx.out i.txn.ctx.out_len).1 } in
      let due : reached (now i') (i'.txn.started +32 txn_p4 i') ≡ true =
        h.past i.reads (omega arith) (omega arith) in
      elim (Bool-cases (give_out i i.txn.ctx.out i.txn.ctx.out_len).0) [
        | inl taken ↦ inr (ap (λ (o : Instance M). o.txn.state) (if-true _ _ taken))
        | inr kept ↦ inl (
            ap (λ (o : Instance M). o.txn.state) (if-false _ _ kept ∙ if-true _ _ due)
            ∙ txn_end-vacant (notify (read i') abort))
      ]

  pub expire_session-Reports : (i : Instance M) → Reports i (expire_session i)
  unfolding expire_session
  expire_session-Reports i =
      if-Reports i.srv.s3_armed (record (read i) { srv = check_s3 (now i) i.srv }) i
        (record {
          cfg = refl;
          state = refl;
          row = refl;
          started = refl;
          deadline = refl;
          pend_count = refl;
          answered = refl;
          later = omega arith;
          soon = omega arith;
        })
        (same-Reports i)
    where
      if-Reports :
          (b : Bool) (o o' : Instance M)
          → Reports i o
          → Reports i o'
          → Reports i (if b then o else o')
      if-Reports true o o' h k = h
      if-Reports false o o' h k = k

  -- The states that a call of `process` comes through.
  pub process-through :
      (i : Instance M) (s t : TxnState)
      → i.txn.state ≡ s
      → (limit s (expire_session i)).txn.state ≡ t
      → let i3 = advance t (limit s (expire_session i)) in process i ≡ deliver i3.txn.state i3
  unfolding process
  process-through i s t hs ht =
      let i1 = expire_session i in
      let from_two : Instance M → Instance M =
        λ i2. let i3 = advance i2.txn.state i2 in deliver i3.txn.state i3 in
      let from_three : Instance M → Instance M = λ i3. deliver i3.txn.state i3 in
      ap (λ x. from_two (limit x i1)) ((expire_session-Reports i).state ∙ hs)
      ∙ ap (λ x. from_three (advance x (limit s i1))) ht

  deliver-Ends :
      (i : Instance M) (s : TxnState)
      → i.txn.state ≡ s
      → Closing (limit s (expire_session i))
      → Ends (process i)
  unfolding Closing advance deliver
  deliver-Ends i s hs (inl over) =
      let i2 = limit s (expire_session i) in
      subst Ends (sym (process-through i s vacant hs over ∙ ap (λ x. deliver x i2) over))
        (vacant-Ends i2 over)
  deliver-Ends i s hs (inr (live, h)) =
      let i2 = limit s (expire_session i) in
      subst Ends (sym (process-through i s sending hs live ∙ ap (λ x. deliver x i2) live))
        (offer-Ends i2 h)

  -- At the next two readings of the clock, the carrier's word is overdue.
  pub record Unheard (i : Instance M) : Type 0 where
    pub past :
        (n : ℕ) → i.reads ≤ n → n < i.reads + 2 → reached (i.cfg.get_us n) i.txn.deadline ≡ true

  process-gives_up :
      (i : Instance M) → i.txn.state ≡ awaiting → Unheard i → (process i).txn.state ≡ vacant
  unfolding limit advance deliver wait_word fail_link
  process-gives_up i h u =
      let i1 = expire_session i in
      let r = expire_session-Reports i in
      let at : i1.txn.state ≡ awaiting = r.state ∙ h in
      let due : reached (now i1) i1.txn.deadline ≡ true =
        ap₂ (λ (c : Cfg M) (d : ℕ). reached (c.get_us i1.reads) d) r.cfg r.deadline
        ∙ u.past i1.reads r.later (let b = r.soon in omega arith) in
      ap (λ (o : Instance M). o.txn.state)
        (process-through i awaiting awaiting h at ∙ ap (λ x. deliver x i1) at ∙ if-true _ _ due)
      ∙ txn_end-vacant _

  -- Two calls of `process` from the transaction's limit on end the transaction, whatever the handler,
  -- the carrier and the application do: after the first it is over, or its answer is with the carrier,
  -- and in that case the second ends it, where the carrier has not confirmed and its time to do so is
  -- over. At its next five readings the clock is past the limit.
  pub process-closes :
      (i : Instance M)
      → (i.txn.state ≡ running) ⊎ (i.txn.state ≡ sending)
      → Overdue i 5
      → ((process i).txn.state ≡ vacant)
        ⊎ (((process i).txn.state ≡ awaiting)
            × (Unheard (process i) → (process (process i)).txn.state ≡ vacant))
  unfolding limit give_up Closing
  process-closes i live h =
      elim (first live)
        as (λ e.
          ((process i).txn.state ≡ vacant)
          ⊎ (((process i).txn.state ≡ awaiting)
              × (Unheard (process i) → (process (process i)).txn.state ≡ vacant))) [
                | inl over ↦ inl over
                | inr carried ↦ inr (carried, process-gives_up (process i) carried)
              ]
    where
      i1 : Instance M
      i1 = expire_session i

      h1 : Overdue i1 4
      h1 = Reports-Overdue i i1 4 (expire_session-Reports i) h

      first : (i.txn.state ≡ running) ⊎ (i.txn.state ≡ sending) → Ends (process i)
      first (inl e) = deliver-Ends i running e (give_up-Closing i1 h1)
      first (inr e) = deliver-Ends i sending e (
          inr (
            (expire_session-Reports i).state ∙ e,
            record { past = λ n l u. h1.past n l (omega arith) },
          ))
