-- ===== src/Middleware/UdsSvcTransfer/Block/Image.antt =====
-- The memory behind the callbacks, and what a download has left in it so far.
use nx_c_util.Base.{
  ℕ, ◌+◌, ◌^◌, ◌≤◌, ◌<◌, ◌≡◌, ◌⊎◌, refl, arith, Bool, true, false, ◌&&◌, inl, some, List, [],
  length, ◌==◌, if◌then◌else◌, ◌+32◌, ◌-32◌, get_or, set, drop,
}
use nx_c_util.Middleware.Uds.{
  Phase, request, resume, response, confirm, link_error, silence, abort, Ctx,
}
use nx_c_util.Middleware.UdsSvcTransfer.{download, payload_room, Xfer, Outcome, WriteFn, refuse}
use nx_c_util.Middleware.UdsSvcTransfer.Open.{is_closed, at_phase, later_phase}
use nx_c_util.Middleware.UdsSvcTransfer.Block.{
  repeat, write_block, carry, fit, new_block, take_block, transfer_data,
}

-- The memory behind a `write_fn`, byte by byte: a write that succeeds stores its bytes, and no write
-- changes a byte outside the block it was given.
pub record Memory {M : Type 0} (write_fn : WriteFn M) (view : M → ℕ → ℕ) : Type 0 where
  pub stores :
      (m : M) (addr : ℕ) (bytes : List ℕ) (nrc i : ℕ)
      → (write_fn m addr bytes nrc).0 ≡ true
      → i < length bytes
      → view (write_fn m addr bytes nrc).1 (addr + i) ≡ get_or bytes i 0
  pub keeps :
      (m : M) (addr : ℕ) (bytes : List ℕ) (nrc i : ℕ)
      → (i < addr) ⊎ (addr + length bytes ≤ i)
      → view (write_fn m addr bytes nrc).1 i ≡ view m i

-- The request is all there, with its counter.
abbrev pub IsWhole : Ctx → Type 0
IsWhole ctx = (ctx.req_len ≡ length ctx.req) × (2 ≤ ctx.req_len) × (ctx.req_len < 2 ^ 32)

-- The payload of a block.
abbrev pub payload : Ctx → List ℕ
payload ctx = drop 2 ctx.req

module _ {M : Type 0} where
  -- A new block of a download is refused, or it is in turn, fits and is written.
  new_block-download :
      (xfer : Xfer M) (ctx : Ctx) (app : M)
      → xfer.run.dir ≡ download
      → let o = new_block xfer ctx app in
        let len = ctx.req_len -32 2 in
        let bsc = get_or ctx.req 1 0 in
        ((o.xfer ≡ xfer) × (o.app ≡ app))
        ⊎ ((bsc ≡ xfer.run.bsc_next)
            × (0 < len)
            × (len ≤ payload_room xfer.run.block_len)
            × (xfer.run.sent +32 len ≤ xfer.run.size)
            × (o
                ≡ write_block xfer.cfg.write_fn xfer
                    (record ctx { out = set ctx.out 1 bsc })
                    app
                    bsc
                    len))
  unfolding new_block fit carry refuse
  new_block-download xfer ctx app down = ground arith

  -- What a request of a download comes to: nothing changes, or a new block is written.
  abbrev Downloads : Xfer M → Ctx → M → Outcome M → Type 0
  Downloads xfer ctx app o =
      let len = ctx.req_len -32 2 in
      let bsc = get_or ctx.req 1 0 in
      ((o.xfer ≡ xfer) × (o.app ≡ app))
      ⊎ ((bsc ≡ xfer.run.bsc_next)
          × (0 < len)
          × (len ≤ payload_room xfer.run.block_len)
          × (xfer.run.sent +32 len ≤ xfer.run.size)
          × (o
              ≡ write_block xfer.cfg.write_fn xfer (record ctx { out = set ctx.out 1 bsc }) app bsc
                  len))

  if-Downloads :
      (xfer : Xfer M) (ctx : Ctx) (app : M) (b : Bool) (o o' : Outcome M)
      → Downloads xfer ctx app o
      → Downloads xfer ctx app o'
      → Downloads xfer ctx app (if b then o else o')
  if-Downloads xfer ctx app true o o' h h' = h
  if-Downloads xfer ctx app false o o' h h' = h'

  repeat-download :
      (xfer : Xfer M) (ctx : Ctx) (app : M)
      → xfer.run.dir ≡ download
      → ((repeat xfer ctx app).xfer ≡ xfer) × ((repeat xfer ctx app).app ≡ app)
  unfolding repeat
  repeat-download xfer ctx app down = ground arith

  at_phase-Downloads :
      (p : Phase) (xfer : Xfer M) (ctx : Ctx) (app : M) (o : Outcome M)
      → Downloads xfer ctx app o
      → Downloads xfer ctx app (at_phase p xfer ctx app o)
  unfolding at_phase later_phase
  at_phase-Downloads request xfer ctx app o h = h
  at_phase-Downloads resume xfer ctx app o h = inl (refl, refl)
  at_phase-Downloads response xfer ctx app o h = inl (refl, refl)
  at_phase-Downloads confirm xfer ctx app o h = inl (refl, refl)
  at_phase-Downloads link_error xfer ctx app o h = inl (refl, refl)
  at_phase-Downloads silence xfer ctx app o h = inl (refl, refl)
  at_phase-Downloads abort xfer ctx app o h = inl (refl, refl)

  pub transfer_data-Downloads :
      (xfer : Xfer M) (ctx : Ctx) (app : M)
      → xfer.run.dir ≡ download
      → Downloads xfer ctx app (transfer_data xfer ctx app)
  unfolding transfer_data take_block refuse
  transfer_data-Downloads xfer ctx app down =
      at_phase-Downloads ctx.phase xfer ctx app (take_block xfer ctx app) (
        if-Downloads xfer ctx app (is_closed xfer.run.dir) (refuse ctx xfer app 0x24) _
          (inl (refl, refl))
          (if-Downloads xfer ctx app (xfer.run.committed && get_or ctx.req 1 0 == xfer.run.bsc_last)
            (repeat xfer ctx app) (new_block xfer ctx app) (inl (repeat-download xfer ctx app down))
            (new_block-download xfer ctx app down)))

-- A download that has stored `image` so far: it lies at the start of the region, and outside the region the
-- memory is as it was when the transfer opened, `before`.
pub record IsLoading {M : Type 0} (write_fn : WriteFn M) (view : M → ℕ → ℕ) (before : M)
    (image : List ℕ) (xfer : Xfer M) (app : M) : Type 0 where
  pub down : xfer.run.dir ≡ download
  pub writes : xfer.cfg.write_fn ≡ some write_fn
  pub region : xfer.run.addr + xfer.run.size ≤ 2 ^ 32
  pub block : xfer.run.size + xfer.run.block_len < 2 ^ 32
  pub reached : xfer.run.sent ≡ length image
  pub bounded : length image ≤ xfer.run.size
  pub inside : (i : ℕ) → i < length image → view app (xfer.run.addr + i) ≡ get_or image i 0
  pub outside :
      (i : ℕ)
      → (i < xfer.run.addr) ⊎ (xfer.run.addr + xfer.run.size ≤ i)
      → view app i ≡ view before i

-- The bytes that a request adds to the image: its payload where the transfer advances.
unfoldable pub added : {M : Type 0} → Xfer M → Outcome M → Ctx → List ℕ
added xfer o ctx = if o.xfer.run.sent == xfer.run.sent then [] else payload ctx
