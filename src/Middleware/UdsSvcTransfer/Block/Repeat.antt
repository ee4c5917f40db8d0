-- ===== src/Middleware/UdsSvcTransfer/Block/Repeat.antt =====
-- src/middleware/nx_uds_svc_transfer.c: a block that arrives twice.
use nx_c_util.Middleware.UdsSvcTransfer.Block.Carried.{
  fill_upload-pure, carry-repeat, IsPure, after,
}
use nx_c_util.Base.{
  ℕ, ◌^◌, ◌<◌, ◌≡◌, refl, sym, ap, ap₂, ◌∙◌, arith, Bool, true, false, not, ◌&&◌, ◌||◌, Bool-cases,
  inl, inr, ◌⊎◌, ltb, ◌==◌, ==_iff, if◌then◌else◌, if-true, if-false, ◌+32◌, ◌-32◌, get_or, set,
}
use nx_c_util.Middleware.Uds.{request, done, Ctx}
use nx_c_util.Middleware.UdsSvcTransfer.{payload_room, Xfer, Outcome, refuse}
use nx_c_util.Middleware.UdsSvcTransfer.Open.{is_closed, at_phase}
use nx_c_util.Middleware.UdsSvcTransfer.Block.{
  is_upload, commit, repeat, carry, fit, new_block, take_block, transfer_data,
}

module _ {M : Type 0} where
  refuse-done :
      (ctx : Ctx) (xfer : Xfer M) (app : M) (nrc : ℕ)
      → (refuse ctx xfer app nrc).disposition ≡ done
      → ⊥
  unfolding refuse
  refuse-done ctx xfer app nrc h = ground arith

  -- Where a handler is done, it went past its guard.
  pub past_guard :
      (b : Bool) (ctx : Ctx) (xfer : Xfer M) (app : M) (nrc : ℕ) (o : Outcome M)
      → (if b then refuse ctx xfer app nrc else o).disposition ≡ done
      → (b ≡ false) × ((if b then refuse ctx xfer app nrc else o) ≡ o)
  past_guard true ctx xfer app nrc o h = absurd (refuse-done ctx xfer app nrc h)
  past_guard false ctx xfer app nrc o h = (refl, refl)

  done_as : {o o' : Outcome M} → o ≡ o' → o.disposition ≡ done → o'.disposition ≡ done
  done_as e h = ap (λ (o : Outcome M). o.disposition) (sym e) ∙ h

  module _ (xfer : Xfer M) (ctx : Ctx) (app : M) where
    -- A block that is done is carried at some length.
    pub fit-carry :
        (bsc len : ℕ)
        → len < 2 ^ 32
        → (fit xfer ctx app bsc len).disposition ≡ done
        → (n : ℕ) × (n < 2 ^ 32) × (fit xfer ctx app bsc len ≡ carry xfer ctx app bsc n)
    unfolding fit
    fit-carry bsc len hl h = elim (Bool-cases (ltb xfer.run.size (xfer.run.sent +32 len))) [
      | inl over ↦
          let left = xfer.run.size -32 xfer.run.sent in
          let p =
            past_guard (left == 0 || not (is_upload xfer.run.dir)) ctx xfer app 0x31
              (carry xfer ctx app bsc left) (rw over at h) in
          (left, omega arith, rw over p.1)
      | inr fits ↦ (len, hl, rw fits refl)
    ]

    pub new_block-carry :
        xfer.run.block_len < 2 ^ 32
        → (new_block xfer ctx app).disposition ≡ done
        → (n : ℕ) × (n < 2 ^ 32)
          × (new_block xfer ctx app ≡ carry xfer ctx app (get_or ctx.req 1 0) n)
    unfolding new_block payload_room
    new_block-carry hb h =
        let bsc = get_or ctx.req 1 0 in
        let room = payload_room xfer.run.block_len in
        let len = ctx.req_len -32 2 in
        let turn =
          past_guard (not (bsc == xfer.run.bsc_next)) ctx xfer app xfer.cfg.bsc_error_nrc _ h in
        elim (Bool-cases (is_upload xfer.run.dir)) [
          | inl up ↦
              let same = turn.1 ∙ if-true (fit xfer ctx app bsc room) _ up in
              let c = fit-carry bsc room (ground arith) (done_as same h) in (c.0, c.1, same ∙ c.2)
          | inr down ↦
              let same = turn.1 ∙ if-false (fit xfer ctx app bsc room) _ down in
              let sized =
                past_guard (len == 0 || ltb room len) ctx xfer app 0x31 (fit xfer ctx app bsc len)
                  (done_as same h) in
              let c = fit-carry bsc len (omega arith) (done_as (same ∙ sized.1) h) in
              (c.0, c.1, same ∙ sized.1 ∙ c.2)
        ]

    -- A request that is done is the last block again, or a new one.
    pub take_block-cases :
        (take_block xfer ctx app).disposition ≡ done
        → (is_closed xfer.run.dir ≡ false)
          × ((take_block xfer ctx app ≡ repeat xfer ctx app)
              ⊎ (take_block xfer ctx app ≡ new_block xfer ctx app))
    unfolding take_block
    take_block-cases h =
        let open_now = past_guard (is_closed xfer.run.dir) ctx xfer app 0x24 _ h in
        (
          open_now.0,
          elim (Bool-cases (xfer.run.committed && get_or ctx.req 1 0 == xfer.run.bsc_last)) [
            | inl again ↦ inl (open_now.1 ∙ rw again refl)
            | inr fresh ↦ inr (open_now.1 ∙ rw fresh refl)
          ],
        )

    take_block-again :
        is_closed xfer.run.dir ≡ false
        → xfer.run.committed ≡ true
        → get_or ctx.req 1 0 ≡ xfer.run.bsc_last
        → take_block xfer ctx app ≡ repeat xfer ctx app
    unfolding take_block
    take_block-again live again same =
        if-false _ _ live
        ∙ if-true {b = xfer.run.committed && get_or ctx.req 1 0 == xfer.run.bsc_last}
            (repeat xfer ctx app) (new_block xfer ctx app)
            (rw again ((==_iff (get_or ctx.req 1 0) xfer.run.bsc_last).1 same))

    repeat-pure :
        IsPure xfer.cfg.read_fn
        → ((repeat xfer ctx app).app ≡ app) × ((repeat xfer ctx app).xfer ≡ xfer)
    unfolding repeat
    repeat-pure pure = elim (Bool-cases (is_upload xfer.run.dir)) [
      | inl up ↦ rw up (
          fill_upload-pure (record ctx { out = set ctx.out 1 xfer.run.bsc_last }) app
            (xfer.run.sent -32 xfer.run.last_len) xfer.run.last_len xfer pure)
      | inr down ↦ rw down (refl, refl)
    ]

  carried-again :
      (x xfer : Xfer M) (ctx : Ctx) (app : M) (n : ℕ)
      → is_closed xfer.run.dir ≡ false
      → x ≡ after xfer (get_or ctx.req 1 0) n
      → take_block x ctx app ≡ repeat x ctx app
  unfolding commit
  carried-again x xfer ctx app n live e =
      take_block-again x ctx app (ap (λ (x : Xfer M). is_closed x.run.dir) e ∙ live)
        (ap (λ (x : Xfer M). x.run.committed) e) (sym (ap (λ (x : Xfer M). x.run.bsc_last) e))

  -- At the first phase.
  take_block-repeat :
      (xfer : Xfer M) (ctx : Ctx) (app : M)
      → IsPure xfer.cfg.read_fn
      → xfer.run.sent < 2 ^ 32
      → xfer.run.block_len < 2 ^ 32
      → let o = take_block xfer ctx app in o.disposition ≡ done → take_block o.xfer ctx o.app ≡ o
  take_block-repeat xfer ctx app pure hs hb h =
      let (live, how) = take_block-cases xfer ctx app h in
      elim how [
        | inl again ↦
            let kept = repeat-pure xfer ctx app pure in
            rw again (ap₂ (λ x m. take_block x ctx m) kept.1 kept.0 ∙ again)
        | inr fresh ↦
            let (n, hn, carried) = new_block-carry xfer ctx app hb (done_as fresh h) in
            let whole = fresh ∙ carried in
            let c = carry-repeat xfer ctx app (get_or ctx.req 1 0) n pure hs hn (done_as whole h) in
            rw whole (
              carried-again (carry xfer ctx app (get_or ctx.req 1 0) n).xfer xfer ctx
                (carry xfer ctx app (get_or ctx.req 1 0) n).app n live c.0
              ∙ c.1)
      ]

  pub transfer_data-take_block :
      (xfer : Xfer M) (ctx : Ctx) (app : M)
      → ctx.phase ≡ request
      → transfer_data xfer ctx app ≡ take_block xfer ctx app
  unfolding transfer_data at_phase
  transfer_data-take_block xfer ctx app first =
      ap (λ p. at_phase p xfer ctx app (take_block xfer ctx app)) first

-- Where 0x36 is done, the same request again is done with the same answer, and leaves the transfer and the
-- application as the first one did, as long as reading leaves the application as it is.
pub transfer_data-repeat :
    {M : Type 0} (xfer : Xfer M) (ctx : Ctx) (app : M)
    → IsPure xfer.cfg.read_fn
    → xfer.run.sent < 2 ^ 32
    → xfer.run.block_len < 2 ^ 32
    → ctx.phase ≡ request
    → let o = transfer_data xfer ctx app in
      o.disposition ≡ done → transfer_data o.xfer ctx o.app ≡ o
transfer_data-repeat {M} xfer ctx app pure hs hb first h =
    let same = transfer_data-take_block xfer ctx app first in
    let o = take_block xfer ctx app in
    ap₂ (λ x m. transfer_data x ctx m) (ap (λ (o : Outcome M). o.xfer) same)
      (ap (λ (o : Outcome M). o.app) same)
    ∙ transfer_data-take_block o.xfer ctx o.app first
    ∙ take_block-repeat xfer ctx app pure hs hb (done_as same h)
    ∙ sym same
