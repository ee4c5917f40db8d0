-- ===== src/Middleware/UdsSvcTransfer/Block/Carried.antt =====
-- src/middleware/nx_uds_svc_transfer.c: the state after a block that was carried out.
use nx_c_util.Base.{
  ℕ, ◌^◌, ◌<◌, ◌≡◌, refl, sym, ap, ◌∙◌, arith, Bool, true, false, Bool-cases, inl, inr, Option,
  none, some, List, ltb, ◌+32◌, ◌-32◌, set,
}
use nx_c_util.Middleware.Uds.{done, Ctx}
use nx_c_util.Middleware.UdsSvcTransfer.{block_overhead, Xfer, Outcome, ReadFn, WriteFn, refuse}
use nx_c_util.Middleware.UdsSvcTransfer.Block.{
  programming_failure, is_upload, commit, filled, read_block, fill_upload, repeat, written,
  write_block, sent_on, carry,
}

module _ {M : Type 0} where
  -- Reading memory leaves the application as it is.
  abbrev pub IsPure : Option (ReadFn M) → Type 0
  IsPure none = Unit
  IsPure (some read_fn) = (app : M) (addr len nrc : ℕ) → (read_fn app addr len nrc).1 ≡ app

  -- The state after a committed block.
  abbrev pub after : Xfer M → (bsc len : ℕ) → Xfer M
  after xfer bsc len = record xfer { run = commit xfer.run bsc len }

  filled-app :
      (xfer : Xfer M) (ctx : Ctx) (len : ℕ) (got : Bool × M × List ℕ × ℕ)
      → (filled xfer ctx len got).app ≡ got.1
  unfolding filled refuse
  filled-app xfer ctx len (true, app, bytes, nrc) = refl
  filled-app xfer ctx len (false, app, bytes, nrc) = refl

  filled-after :
      (xfer xfer' : Xfer M) (ctx : Ctx) (len : ℕ) (got : Bool × M × List ℕ × ℕ)
      → filled xfer' ctx len got ≡ record (filled xfer ctx len got) { xfer = xfer' }
  unfolding filled refuse
  filled-after xfer xfer' ctx len (true, app, bytes, nrc) = refl
  filled-after xfer xfer' ctx len (false, app, bytes, nrc) = refl

  filled-xfer :
      (xfer : Xfer M) (ctx : Ctx) (len : ℕ) (got : Bool × M × List ℕ × ℕ)
      → (filled xfer ctx len got).xfer ≡ xfer
  unfolding filled refuse
  filled-xfer xfer ctx len (true, app, bytes, nrc) = refl
  filled-xfer xfer ctx len (false, app, bytes, nrc) = refl

  module _ (ctx : Ctx) (app : M) (offset len : ℕ) where
    read_block-pure :
        (f : Option (ReadFn M)) (xfer : Xfer M)
        → IsPure f
        → ((read_block f xfer ctx app offset len).app ≡ app)
          × ((read_block f xfer ctx app offset len).xfer ≡ xfer)
    unfolding read_block refuse
    read_block-pure none xfer pure = (refl, refl)
    read_block-pure (some f) xfer pure = (
      filled-app xfer ctx len _ ∙ pure app (xfer.run.addr +32 offset) len programming_failure,
      filled-xfer xfer ctx len _,
    )

    read_block-after :
        (f : Option (ReadFn M)) (xfer : Xfer M) (bsc n : ℕ)
        → read_block f (after xfer bsc n) ctx app offset len
          ≡ record (read_block f xfer ctx app offset len) { xfer = after xfer bsc n }
    unfolding read_block refuse commit
    read_block-after none xfer bsc n = refl
    read_block-after (some f) xfer bsc n = filled-after xfer (after xfer bsc n) ctx len _

    pub fill_upload-pure :
        (xfer : Xfer M)
        → IsPure xfer.cfg.read_fn
        → ((fill_upload xfer ctx app offset len).app ≡ app)
          × ((fill_upload xfer ctx app offset len).xfer ≡ xfer)
    unfolding fill_upload refuse
    fill_upload-pure xfer pure = elim (Bool-cases (ltb ctx.out_cap (block_overhead +32 len))) [
      | inl e ↦ rw e (refl, refl)
      | inr e ↦ rw e (read_block-pure xfer.cfg.read_fn xfer pure)
    ]

    fill_upload-after :
        (xfer : Xfer M) (bsc n : ℕ)
        → fill_upload (after xfer bsc n) ctx app offset len
          ≡ record (fill_upload xfer ctx app offset len) { xfer = after xfer bsc n }
    unfolding fill_upload refuse
    fill_upload-after xfer bsc n = elim (Bool-cases (ltb ctx.out_cap (block_overhead +32 len))) [
      | inl e ↦ rw e refl
      | inr e ↦ rw e (read_block-after xfer.cfg.read_fn xfer bsc n)
    ]

  sent_on-done :
      (o : Outcome M) (bsc len : ℕ)
      → (sent_on o bsc len).disposition ≡ done
      → (o.disposition ≡ done) × (sent_on o bsc len ≡ record o { xfer = after o.xfer bsc len })
  unfolding sent_on
  sent_on-done o bsc len h = ground arith

  write_block-done :
      (f : Option (WriteFn M)) (xfer : Xfer M) (ctx : Ctx) (app : M) (bsc len : ℕ)
      → let o = write_block f xfer ctx app bsc len in
        o.disposition ≡ done → (o.ctx ≡ record ctx { out_len = 2 }) × (o.xfer ≡ after xfer bsc len)
  unfolding write_block written refuse
  write_block-done none xfer ctx app bsc len h = ground arith
  write_block-done (some f) xfer ctx app bsc len h = ground arith

  outcome_parts :
      (o : Outcome M) {c : Ctx} {x : Xfer M}
      → o.disposition ≡ done
      → o.ctx ≡ c
      → o.xfer ≡ x
      → record { disposition = done; ctx = c; xfer = x; app = o.app } ≡ o
  outcome_parts o d c x = cc

  module _ (xfer : Xfer M) (ctx : Ctx) (app : M) (bsc len : ℕ) where
    echoed : Ctx
    echoed = record ctx { out = set ctx.out 1 bsc }

    -- The block is read from where it was read at first.
    repeat-upload :
        is_upload xfer.run.dir ≡ true
        → xfer.run.sent < 2 ^ 32
        → len < 2 ^ 32
        → repeat (after xfer bsc len) ctx app
          ≡ record (fill_upload xfer echoed app xfer.run.sent len) { xfer = after xfer bsc len }
    unfolding repeat commit echoed
    repeat-upload up hs hl =
        let back : (xfer.run.sent +32 len) -32 len ≡ xfer.run.sent = omega arith in
        rw (up, back) (fill_upload-after echoed app xfer.run.sent len xfer bsc len)

    carry-sent_on :
        is_upload xfer.run.dir ≡ true
        → carry xfer ctx app bsc len
          ≡ sent_on (fill_upload xfer echoed app xfer.run.sent len) bsc len
    unfolding carry echoed
    carry-sent_on up = rw up refl

    carry-upload :
        is_upload xfer.run.dir ≡ true
        → IsPure xfer.cfg.read_fn
        → (carry xfer ctx app bsc len).disposition ≡ done
        → ((carry xfer ctx app bsc len).app ≡ app)
          × (carry xfer ctx app bsc len ≡ record (fill_upload xfer echoed app xfer.run.sent len) {
            xfer = after xfer bsc len;
          })
    carry-upload up pure h =
        let f = fill_upload xfer echoed app xfer.run.sent len in
        let kept = fill_upload-pure echoed app xfer.run.sent len xfer pure in
        let e = sent_on-done f bsc len (rw (carry-sent_on up) at h) in
        let whole : carry xfer ctx app bsc len ≡ record f { xfer = after xfer bsc len } =
          carry-sent_on up ∙ e.1 ∙ ap (λ x. record f { xfer = after x bsc len }) kept.1 in
        (ap (λ (o : Outcome M). o.app) whole ∙ kept.0, whole)

    carry-write_block :
        is_upload xfer.run.dir ≡ false
        → carry xfer ctx app bsc len ≡ write_block xfer.cfg.write_fn xfer echoed app bsc len
    unfolding carry echoed
    carry-write_block down = rw down refl

    carry-download :
        is_upload xfer.run.dir ≡ false
        → (carry xfer ctx app bsc len).disposition ≡ done
        → ((carry xfer ctx app bsc len).ctx ≡ record echoed { out_len = 2 })
          × ((carry xfer ctx app bsc len).xfer ≡ after xfer bsc len)
    carry-download down h = rw (carry-write_block down) (
        write_block-done xfer.cfg.write_fn xfer echoed app bsc len
          (rw (carry-write_block down) at h))

    repeat-download :
        is_upload xfer.run.dir ≡ false
        → (m : M)
        → repeat (after xfer bsc len) ctx m ≡ record {
          disposition = done;
          ctx = record echoed { out_len = 2 };
          xfer = after xfer bsc len;
          app = m;
        }
    unfolding repeat commit echoed
    repeat-download down m = rw down refl

    -- A block that is done: its state, and the answer to its repetition.
    pub carry-repeat :
        IsPure xfer.cfg.read_fn
        → xfer.run.sent < 2 ^ 32
        → len < 2 ^ 32
        → let o = carry xfer ctx app bsc len in
          o.disposition ≡ done → (o.xfer ≡ after xfer bsc len) × (repeat o.xfer ctx o.app ≡ o)
    carry-repeat pure hs hl h = elim (Bool-cases (is_upload xfer.run.dir)) [
      | inl up ↦
          let c = carry-upload up pure h in
          rw c.1 (
            refl,
            ap (repeat (after xfer bsc len) ctx) (sym (ap (λ (o : Outcome M). o.app) c.1) ∙ c.0)
                ∙ repeat-upload up hs hl,
          )
      | inr down ↦
          let c = carry-download down h in
          (
            c.1,
            ap (λ x. repeat x ctx (carry xfer ctx app bsc len).app) c.1
                ∙ repeat-download down (carry xfer ctx app bsc len).app
                ∙ outcome_parts (carry xfer ctx app bsc len) h c.0 c.1,
          )
    ]
