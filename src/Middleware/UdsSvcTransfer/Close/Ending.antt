-- ===== src/Middleware/UdsSvcTransfer/Close/Ending.antt =====
-- When a transfer ends.
use nx_c_util.Base.{
  ℕ, ◌≤◌, ◌≡◌, ◌⊎◌, refl, ap, arith, Bool, true, false, not, ◌&&◌, inl, none, List, ◌==◌,
  if◌then◌else◌,
}
use nx_c_util.Middleware.Uds.{request, done, negative, Ctx}
use nx_c_util.Middleware.UdsSvcTransfer.{Xfer, Outcome, refuse, cleared}
use nx_c_util.Middleware.UdsSvcTransfer.Open.{is_closed, at_phase}
use nx_c_util.Middleware.UdsSvcTransfer.Close.{settle, conclude, finish, transfer_exit}

module _ {M : Type 0} (xfer : Xfer M) (ctx : Ctx) where
  -- A refusal leaves the transfer; an end clears it, and only an open one ends, one that is complete where the
  -- configuration asks for that.
  abbrev pub Ends : Outcome M → Type 0
  Ends o =
      ((o.disposition ≡ negative) × (o.xfer ≡ xfer))
      ⊎ ((o.disposition ≡ done)
          × (o.xfer ≡ record xfer { run = cleared })
          × (is_closed xfer.run.dir ≡ false)
          × (xfer.cfg.require_full_size ≡ true → xfer.run.sent ≡ xfer.run.size))

  settle-Ends :
      (answer : Bool × M × List ℕ × ℕ × ℕ)
      → is_closed xfer.run.dir ≡ false
      → (xfer.cfg.require_full_size && not (xfer.run.sent == xfer.run.size)) ≡ false
      → Ends (settle xfer ctx answer)
  unfolding settle refuse
  settle-Ends (accepted, app, bytes, out_len, nrc) live full = ground arith

  if-Ends :
      (b : Bool) (o o' : Outcome M) → Ends o → (b ≡ false → Ends o') → Ends (if b then o else o')
  if-Ends true o o' h k = h
  if-Ends false o o' h k = k refl

  refuse-Ends : (app : M) (nrc : ℕ) → Ends (refuse ctx xfer app nrc)
  unfolding refuse
  refuse-Ends app nrc = inl (refl, refl)

  finish-Ends : (app : M) → Ends (finish xfer ctx app)
  unfolding finish
  finish-Ends app = if-Ends (is_closed xfer.run.dir) _ _ (refuse-Ends app 0x24) λ live.
      if-Ends (xfer.cfg.require_full_size && not (xfer.run.sent == xfer.run.size)) _ _
        (refuse-Ends app 0x24) λ full. settle-Ends _ live full

  finish-alone :
      (app : M)
      → xfer.cfg.close_fn ≡ none
      → is_closed xfer.run.dir ≡ false
      → xfer.run.sent ≡ xfer.run.size
      → 1 ≤ ctx.out_cap
      → (finish xfer ctx app).disposition ≡ done
  unfolding finish conclude settle refuse
  finish-alone app alone live full room = ground arith

  transfer_exit-finish :
      (app : M) → ctx.phase ≡ request → transfer_exit xfer ctx app ≡ finish xfer ctx app
  unfolding transfer_exit at_phase
  transfer_exit-finish app first = ap (λ p. at_phase p xfer ctx app (finish xfer ctx app)) first

-- At the first phase, 0x37 either refuses and leaves the transfer as it was, or ends one that is open and clears
-- its state, one that is complete where the configuration asks for that. Without a `close_fn` it ends such a
-- transfer, if the answer has room for a byte.
pub transfer_exit-Ends :
    {M : Type 0} (xfer : Xfer M) (ctx : Ctx) (app : M)
    → ctx.phase ≡ request
    → let o = transfer_exit xfer ctx app in
      Ends xfer ctx o
      × (xfer.cfg.close_fn ≡ none
          → is_closed xfer.run.dir ≡ false
          → xfer.run.sent ≡ xfer.run.size
          → 1 ≤ ctx.out_cap
          → o.disposition ≡ done)
transfer_exit-Ends xfer ctx app first =
    rw (transfer_exit-finish xfer ctx app first)
      (finish-Ends xfer ctx app, finish-alone xfer ctx app)
