-- ===== src/Middleware/UdsSvcTransfer/Open/Opening.antt =====
-- When a transfer opens, and what the answer announces.
use nx_c_util.Base.{
  ℕ, ◌+◌, ◌-◌, ◌*◌, ◌^◌, ◌≤◌, ◌<◌, ◌≡◌, ◌⊎◌, refl, ap, ◌∙◌, arith, Bool, true, false, not, ◌||◌,
  inl, inr, Option, none, some, List, ◌∷◌, ltb, ◌==◌, if◌then◌else◌, ◌>>◌, ◌<<◌, u8, bit_and,
  get_or, set, take, drop, length, length-set,
}
use nx_c_util.Middleware.Uds.{request, done, negative, Ctx}
use nx_c_util.Middleware.UdsSvcTransfer.{Dir, download, upload, payload_room, Xfer, Outcome, refuse}
use nx_c_util.Middleware.UdsSvcTransfer.Fields.{read_be, write_be, width_for}
use nx_c_util.Middleware.UdsSvcTransfer.Fields.RoundTrip.{read_be-write_be, width_for-le}
use nx_c_util.Middleware.UdsSvcTransfer.Open.{
  is_closed, announce_len, opened, announce, open_region, open_transfer, consult, unserved,
  at_phase, request_download, request_upload,
}

-- The widths of the two fields of a request.
abbrev pub addr_width : Ctx → ℕ
addr_width ctx = bit_and (get_or ctx.req 2 0) 0x0F

abbrev pub size_width : Ctx → ℕ
size_width ctx = bit_and (get_or ctx.req 2 0 >> 4) 0x0F

-- A transfer that has opened: at the region the request declares, with nothing sent, and with a block
-- length that holds at least a byte, is within the link's capacity, and is the number that the answer
-- reads as. The byte before the number has its width in the high half and 0 in the low half, and the
-- answer fits its buffer.
pub record Opens {M : Type 0} (xfer : Xfer M) (ctx : Ctx) (dir : Dir) (o : Outcome M) : Type 0 where
  pub is_done : o.disposition ≡ done
  pub none_open : is_closed xfer.run.dir ≡ true
  pub direction : o.xfer.run.dir ≡ dir
  pub addr : read_be (take (addr_width ctx) (drop 3 ctx.req)) ≡ some o.xfer.run.addr
  pub size :
      read_be (take (size_width ctx) (drop (3 + addr_width ctx) ctx.req)) ≡ some o.xfer.run.size
  pub not_empty : 0 < o.xfer.run.size
  pub nothing_sent :
      (o.xfer.run.sent ≡ 0) × (o.xfer.run.committed ≡ false) × (o.xfer.run.bsc_next ≡ 1)
  pub capacity : o.xfer.run.block_len ≤ announce_len xfer dir
  pub room : 0 < payload_room o.xfer.run.block_len
  pub announced : read_be (take (o.ctx.out_len - 2) (drop 2 o.ctx.out)) ≡ some o.xfer.run.block_len
  pub format : get_or o.ctx.out 1 0 ≡ (o.ctx.out_len - 2) * 16
  pub fits : o.ctx.out_len ≤ ctx.out_cap

get_or-set : (out : List ℕ) (b : ℕ) → 2 ≤ length out → get_or (set out 1 b) 1 0 ≡ b
get_or-set (p ∷ q ∷ out) b h = refl
get_or-set _ b h = absurd (omega arith)

-- The bytes that an opening writes: the byte of the width, and the block length behind it.
module _ (ctx : Ctx) (block_len : ℕ) where
  announcement : List ℕ
  announcement =
      write_be (set ctx.out 1 (u8 (width_for block_len << 4))) 2 (width_for block_len) block_len

  announcement-reads :
      2 + width_for block_len ≤ ctx.out_cap
      → ctx.out_cap ≤ length ctx.out
      → block_len < 2 ^ 32
      → (read_be (take (width_for block_len) (drop 2 announcement)) ≡ some block_len)
        × (get_or announcement 1 0 ≡ width_for block_len * 16)
  unfolding announcement
  announcement-reads fit long h =
      let back =
        read_be-write_be (set ctx.out 1 (u8 (width_for block_len << 4))) block_len
          (omega (arith, length-set ctx.out 1 (u8 (width_for block_len << 4)))) h in
      (
        back.0,
        back.1
            ∙ get_or-set ctx.out (u8 (width_for block_len << 4)) (omega arith)
            ∙ omega (arith, width_for-le block_len),
      )

module _ {M : Type 0} (xfer : Xfer M) (ctx : Ctx) (dir : Dir) where
  -- A request that is refused leaves the transfer.
  abbrev pub Refuses : Outcome M → Type 0
  Refuses o = (o.disposition ≡ negative) × (o.xfer ≡ xfer)

  announce-cases :
      (addr size : ℕ) (asked : Bool × M × ℕ × ℕ)
      → let limit = announce_len xfer dir in
        let block_len = if ltb limit asked.2 then limit else asked.2 in
        let o = announce xfer ctx dir addr size asked in
        Refuses o
        ⊎ ((block_len ≤ limit)
            × (0 < payload_room block_len)
            × (2 + width_for block_len ≤ ctx.out_cap)
            × (o ≡ opened xfer ctx asked.1 dir addr size block_len))
  unfolding announce refuse
  announce-cases addr size (accepted, app, wished, nrc) = ground arith

  opened-Opens :
      (app : M) (addr size block_len : ℕ)
      → 2 + width_for block_len ≤ ctx.out_cap
      → ctx.out_cap ≤ length ctx.out
      → block_len < 2 ^ 32
      → is_closed xfer.run.dir ≡ true
      → read_be (take (addr_width ctx) (drop 3 ctx.req)) ≡ some addr
      → read_be (take (size_width ctx) (drop (3 + addr_width ctx) ctx.req)) ≡ some size
      → 0 < size
      → block_len ≤ announce_len xfer dir
      → 0 < payload_room block_len
      → Opens xfer ctx dir (opened xfer ctx app dir addr size block_len)
  unfolding opened announcement
  opened-Opens app addr size block_len fit long h shut ea es pos limit room = record {
    is_done = refl;
    none_open = shut;
    direction = refl;
    addr = ea;
    size = es;
    not_empty = pos;
    nothing_sent = (refl, refl, refl);
    capacity = limit;
    room = room;
    announced =
        ap (λ n. read_be (take n (drop 2 (announcement ctx block_len))))
          {x = 2 + width_for block_len - 2} (omega arith)
        ∙ (announcement-reads ctx block_len fit long h).0;
    format = (announcement-reads ctx block_len fit long h).1 ∙ omega arith;
    fits = fit;
  }

  if-Opens :
      (b : Bool) (o o' : Outcome M)
      → Refuses o
      → (b ≡ false → Refuses o' ⊎ Opens xfer ctx dir o')
      → Refuses (if b then o else o') ⊎ Opens xfer ctx dir (if b then o else o')
  if-Opens true o o' h k = inl h
  if-Opens false o o' h k = k refl

  refuse-Refuses : (app : M) (nrc : ℕ) → Refuses (refuse ctx xfer app nrc)
  unfolding refuse
  refuse-Refuses app nrc = (refl, refl)

  open_region-Opens :
      (app : M) (addr size : Option ℕ)
      → ctx.out_cap ≤ length ctx.out
      → announce_len xfer dir < 2 ^ 32
      → is_closed xfer.run.dir ≡ true
      → read_be (take (addr_width ctx) (drop 3 ctx.req)) ≡ addr
      → read_be (take (size_width ctx) (drop (3 + addr_width ctx) ctx.req)) ≡ size
      → let o = open_region xfer ctx app dir addr size in Refuses o ⊎ Opens xfer ctx dir o
  unfolding open_region
  open_region-Opens app none size long limit shut ea es = inl (refuse-Refuses app 0x31)
  open_region-Opens app (some addr) none long limit shut ea es = inl (refuse-Refuses app 0x31)
  open_region-Opens app (some addr) (some size) long limit shut ea es =
      if-Opens (size == 0) _ _ (refuse-Refuses app 0x31) λ pos.
        let asked =
          consult xfer.cfg.open_fn app dir addr size (get_or ctx.req 1 0) (announce_len xfer dir)
            0x31 in
        elim (announce-cases addr size asked) [
          | inl refused ↦ inl refused
          | inr (le, room, fit, e) ↦ inr (
              rw e (
                opened-Opens asked.1 addr size _ fit long (omega arith) shut ea es (ground arith) le
                  room))
        ]

  open_transfer-Opens :
      (app : M)
      → ctx.out_cap ≤ length ctx.out
      → announce_len xfer dir < 2 ^ 32
      → let o = open_transfer xfer ctx app dir in Refuses o ⊎ Opens xfer ctx dir o
  unfolding open_transfer
  open_transfer-Opens app long limit =
      if-Opens (not (is_closed xfer.run.dir)) _ _ (refuse-Refuses app 0x22) λ shut.
        if-Opens (unserved xfer.cfg dir) _ _ (refuse-Refuses app 0x70) λ served.
          if-Opens
            (addr_width ctx == 0
              || size_width ctx == 0
              || not (ctx.req_len == 3 + addr_width ctx + size_width ctx))
            _ _ (refuse-Refuses app 0x13)
            λ sized. open_region-Opens app _ _ long limit (ground (arith, shut)) refl refl

module _ {M : Type 0} (xfer : Xfer M) where
  announce_len-lt :
      (dir : Dir)
      → xfer.srv.max_req_apdu < 2 ^ 32
      → xfer.srv.max_resp_apdu < 2 ^ 32
      → announce_len xfer dir < 2 ^ 32
  unfolding announce_len
  announce_len-lt dir hq hr = ground arith

  module _ (ctx : Ctx) (app : M) (first : ctx.phase ≡ request) where
    pub request_download-open_transfer :
        request_download xfer ctx app ≡ open_transfer xfer ctx app download
    unfolding request_download at_phase
    request_download-open_transfer =
        ap (λ p. at_phase p xfer ctx app (open_transfer xfer ctx app download)) first

    pub request_upload-open_transfer :
        request_upload xfer ctx app ≡ open_transfer xfer ctx app upload
    unfolding request_upload at_phase
    request_upload-open_transfer =
        ap (λ p. at_phase p xfer ctx app (open_transfer xfer ctx app upload)) first

-- At the first phase, 0x34 and 0x35 either refuse and leave the transfer as it was, or open one, if none
-- was open, at the region the request declares; the answer then fits its buffer and announces the block
-- length, which is within the capacity, as a number that reads back behind a byte with its width in the high
-- half. The answer's buffer has the capacity the context says, and the link's two limits are 32-bit numbers.
pub request-Opens :
    {M : Type 0} (xfer : Xfer M) (ctx : Ctx) (app : M)
    → ctx.phase ≡ request
    → ctx.out_cap ≤ length ctx.out
    → xfer.srv.max_req_apdu < 2 ^ 32
    → xfer.srv.max_resp_apdu < 2 ^ 32
    → let d = request_download xfer ctx app in
      let u = request_upload xfer ctx app in
      (Refuses xfer ctx download d ⊎ Opens xfer ctx download d)
      × (Refuses xfer ctx upload u ⊎ Opens xfer ctx upload u)
request-Opens xfer ctx app first long hq hr =
    rw
      (
        request_download-open_transfer xfer ctx app first,
        request_upload-open_transfer xfer ctx app first,
      )
      (
        open_transfer-Opens xfer ctx download app long (announce_len-lt xfer download hq hr),
        open_transfer-Opens xfer ctx upload app long (announce_len-lt xfer upload hq hr),
      )
