-- ===== src/Middleware/UdsSvcTransfer/Block/Memory.antt =====
-- What the blocks of a download leave in memory.
use nx_c_util.Middleware.UdsSvcTransfer.Block.Image.{
  IsLoading, IsWhole, Memory, added, payload, transfer_data-Downloads,
}
use nx_c_util.Base.{
  ℕ, ◌+◌, ◌-◌, ◌^◌, ◌≤◌, ◌<◌, ◌≡◌, ◌⊎◌, sym, ap, ◌∙◌, arith, Bool, true, false, Bool-cases, inl,
  inr, some, List, [], ◌∷◌, ◌++◌, length, ltb, ◌==◌, ==_iff, if-true, if-false, ◌+32◌, ◌-32◌,
  get_or, set, take, length-drop, take-all, tests, length-append, get_or-append,
}
use mathlib.Core.List.{append-nil, append_assoc}
use nx_c_util.Middleware.Uds.{Ctx}
use nx_c_util.Middleware.UdsSvcTransfer.{payload_room, Xfer, Outcome, WriteFn, refuse}
use nx_c_util.Middleware.UdsSvcTransfer.Block.{
  programming_failure, commit, written, write_block, transfer_data,
}

module _ {M : Type 0} (write_fn : WriteFn M) (view : M → ℕ → ℕ)
    (memory : Memory write_fn view) where
  module _ (before : M) (image : List ℕ) (xfer : Xfer M) (app : M)
      (w : IsLoading write_fn view before image xfer app) where
    -- The call of `write_fn` for a block.
    unfoldable pub call : List ℕ → Bool × M × ℕ
    call bytes = write_fn app (xfer.run.addr +32 xfer.run.sent) bytes programming_failure

    place :
        length image < xfer.run.size
        → xfer.run.addr +32 xfer.run.sent ≡ xfer.run.addr + length image
    place h = omega (arith, w.reached, w.region)

    module _ (bytes : List ℕ) (pos : 0 < length bytes)
        (fits : length image + length bytes ≤ xfer.run.size) where
      kept :
          (i : ℕ)
          → (i < xfer.run.addr + length image) ⊎ (xfer.run.addr + length image + length bytes ≤ i)
          → view (call bytes).1 i ≡ view app i
      unfolding call
      kept i h =
          memory.keeps app (xfer.run.addr +32 xfer.run.sent) bytes programming_failure i
            (rw (place (omega arith)) h)

      laid :
          (i : ℕ)
          → (call bytes).0 ≡ true
          → i < length bytes
          → view (call bytes).1 (xfer.run.addr + length image + i) ≡ get_or bytes i 0
      unfolding call
      laid i ok h =
          ap (λ a. view (call bytes).1 (a + i)) (sym (place (omega arith)))
          ∙ memory.stores app (xfer.run.addr +32 xfer.run.sent) bytes programming_failure i ok h

      kept_inside :
          (i : ℕ) → i < length image → view (call bytes).1 (xfer.run.addr + i) ≡ get_or image i 0
      kept_inside i h = kept (xfer.run.addr + i) (inl (omega arith)) ∙ w.inside i h

      kept_outside :
          (i : ℕ)
          → (i < xfer.run.addr) ⊎ (xfer.run.addr + xfer.run.size ≤ i)
          → view (call bytes).1 i ≡ view before i
      kept_outside i h = kept i (ground (arith, h)) ∙ w.outside i h

      stored_inside :
          (call bytes).0 ≡ true
          → (i : ℕ) → i < length (image ++ bytes)
          → view (call bytes).1 (xfer.run.addr + i) ≡ get_or (image ++ bytes) i 0
      stored_inside ok i h = elim (Bool-cases (ltb i (length image))) [
        | inl low ↦ rw (get_or-append 0 image bytes i, low) (kept_inside i (omega (tests, low)))
        | inr high ↦
            let past : length image ≤ i = ground (arith, high) in
            rw (get_or-append 0 image bytes i, high)
              (ap (view (call bytes).1) {y = xfer.run.addr + length image + (i - length image)}
                  (omega arith)
                ∙ laid (i - length image) ok (omega (arith, length-append image bytes)))
      ]

    pub stored-IsLoading :
        (bsc len : ℕ) (bytes : List ℕ)
        → length bytes ≡ len
        → 0 < length bytes
        → length image + length bytes ≤ xfer.run.size
        → (call bytes).0 ≡ true
        → IsLoading write_fn view before
            (image ++ bytes)
            (record xfer { run = commit xfer.run bsc len })
            (call bytes).1
    unfolding call commit
    stored-IsLoading bsc len bytes size pos fits ok = record {
      down = w.down;
      writes = w.writes;
      region = w.region;
      block = w.block;
      reached = omega (arith, w.reached, w.block, length-append image bytes);
      bounded = omega (arith, length-append image bytes);
      inside = stored_inside bytes pos fits ok;
      outside = kept_outside bytes pos fits;
    }

    failed-IsLoading :
        (bytes : List ℕ)
        → 0 < length bytes
        → length image + length bytes ≤ xfer.run.size
        → IsLoading write_fn view before image xfer (call bytes).1
    unfolding call
    failed-IsLoading bytes pos fits = record {
      down = w.down;
      writes = w.writes;
      region = w.region;
      block = w.block;
      reached = w.reached;
      bounded = w.bounded;
      inside = kept_inside bytes pos fits;
      outside = kept_outside bytes pos fits;
    }

pub payload_room-le : (n : ℕ) → payload_room n ≤ n
unfolding payload_room
payload_room-le n = ground arith

pub write_block-some :
    {M : Type 0} (write_fn : WriteFn M) (xfer : Xfer M) (ctx : Ctx) (app : M) (bsc len : ℕ)
    (bytes : List ℕ)
    → take len (payload ctx) ≡ bytes
    → let r = write_fn app (xfer.run.addr +32 xfer.run.sent) bytes programming_failure in
      let o = write_block (some write_fn) xfer ctx app bsc len in
      (o.app ≡ r.1)
      × (((r.0 ≡ true) × (o.xfer ≡ record xfer { run = commit xfer.run bsc len }))
          ⊎ ((r.0 ≡ false) × (o.xfer ≡ xfer)))
unfolding write_block written refuse
write_block-some {M} write_fn xfer ctx app bsc len bytes e = rw (sym e) (ground arith)

module _ {M : Type 0} (write_fn : WriteFn M) (view : M → ℕ → ℕ) where
  pub same-IsLoading :
      (before : M) (image more bytes : List ℕ) (x y : Xfer M) (m n : M)
      → x ≡ y
      → m ≡ n
      → bytes ≡ more
      → IsLoading write_fn view before (image ++ more) y n
      → IsLoading write_fn view before (image ++ bytes) x m
  same-IsLoading before image more bytes x y m n e f g w = rw (e, f, g) w

  added_none : (xfer : Xfer M) (o : Outcome M) (ctx : Ctx) → o.xfer ≡ xfer → added xfer o ctx ≡ []
  unfolding added
  added_none xfer o ctx e =
      if-true {b = o.xfer.run.sent == xfer.run.sent} [] (payload ctx)
        ((==_iff o.xfer.run.sent xfer.run.sent).1 (ap (λ (x : Xfer M). x.run.sent) e))

  added_some :
      (xfer : Xfer M) (o : Outcome M) (ctx : Ctx) (bsc len : ℕ)
      → o.xfer ≡ record xfer { run = commit xfer.run bsc len }
      → xfer.run.sent < 2 ^ 32
      → 0 < len
      → len < 2 ^ 32
      → added xfer o ctx ≡ payload ctx
  unfolding added commit
  added_some xfer o ctx bsc len e hs pos hl =
      let moved : o.xfer.run.sent ≡ xfer.run.sent +32 len = ap (λ (x : Xfer M). x.run.sent) e in
      if-false {b = o.xfer.run.sent == xfer.run.sent} [] (payload ctx) (ground (arith, moved))

  -- One request.
  transfer_data-IsLoading :
      (before : M) (image : List ℕ) (xfer : Xfer M) (ctx : Ctx) (app : M)
      → Memory write_fn view
      → IsWhole ctx
      → IsLoading write_fn view before image xfer app
      → let o = transfer_data xfer ctx app in
        IsLoading write_fn view before (image ++ added xfer o ctx) o.xfer o.app
  unfolding call
  transfer_data-IsLoading before image xfer ctx app memory whole w =
      let o = transfer_data xfer ctx app in
      let len = ctx.req_len -32 2 in
      let bsc = get_or ctx.req 1 0 in
      let size : length (payload ctx) ≡ len = omega (arith, length-drop 2 ctx.req) in
      let all : take len (payload ctx) ≡ payload ctx = take-all len (payload ctx) (omega arith) in
      elim (transfer_data-Downloads xfer ctx app w.down) [
        | inl still ↦
            same-IsLoading before image [] (added xfer o ctx) o.xfer xfer o.app app still.0 still.1
              (added_none xfer o ctx still.0) (rw (append-nil image) w)
        | inr (turn, pos, room, fits, e) ↦
            let ctx' = record ctx { out = set ctx.out 1 bsc } in
            let e' : o ≡ write_block (some write_fn) xfer ctx' app bsc len =
              e ∙ ap (λ f. write_block f xfer ctx' app bsc len) w.writes in
            let r = write_block-some write_fn xfer ctx' app bsc len (payload ctx) all in
            let fits' : length image + length (payload ctx) ≤ xfer.run.size =
              omega (arith, payload_room-le xfer.run.block_len, w.reached, w.block) in
            let e_app = ap (λ (o : Outcome M). o.app) e' ∙ r.0 in
            let e_xfer = ap (λ (o : Outcome M). o.xfer) e' in
            elim r.1 [
              | inl (ok, moved) ↦
                  same-IsLoading before image (payload ctx) (added xfer o ctx) o.xfer _ o.app _
                    (e_xfer ∙ moved) e_app
                    (added_some xfer o ctx bsc len (e_xfer ∙ moved)
                      (omega (arith, w.reached, w.block)) pos (omega arith))
                    (stored-IsLoading write_fn view memory before image xfer app w bsc len
                      (payload ctx) size (omega arith) fits' ok)
              | inr (failed, still) ↦
                  same-IsLoading before image [] (added xfer o ctx) o.xfer xfer o.app _
                    (e_xfer ∙ still) e_app (added_none xfer o ctx (e_xfer ∙ still))
                    (rw (append-nil image) (
                      failed-IsLoading write_fn view memory before image xfer app w (payload ctx)
                        (omega arith) fits'))
            ]
      ]

-- A run of requests of the service 0x36, and the bytes that it adds.
unfoldable pub run_data : {M : Type 0} → Xfer M → M → List Ctx → Xfer M × M
run_data xfer app [] = (xfer, app)
run_data xfer app (ctx ∷ rest) = let o = transfer_data xfer ctx app in run_data o.xfer o.app rest

unfoldable pub received : {M : Type 0} → Xfer M → M → List Ctx → List ℕ
unfolding added
received xfer app [] = []
received xfer app (ctx ∷ rest) =
    let o = transfer_data xfer ctx app in added xfer o ctx ++ received o.xfer o.app rest

abbrev pub AreWhole : List Ctx → Type 0
AreWhole [] = Unit
AreWhole (ctx ∷ rest) = IsWhole ctx × AreWhole rest

-- Whatever requests of the service 0x36 arrive in a download, and whichever writes fail: the payloads of the
-- blocks that advanced the transfer lie in memory one behind the other from the region's start on, the
-- transfer has counted them, they fit the region, and outside the region nothing has changed.
pub run_data-IsLoading :
    {M : Type 0} (write_fn : WriteFn M) (view : M → ℕ → ℕ) (before : M) (image : List ℕ)
    (xfer : Xfer M) (app : M) (rs : List Ctx)
    → Memory write_fn view
    → AreWhole rs
    → IsLoading write_fn view before image xfer app
    → let (xfer', app') = run_data xfer app rs in
      IsLoading write_fn view before (image ++ received xfer app rs) xfer' app'
unfolding run_data received
run_data-IsLoading write_fn view before image xfer app [] memory whole w = rw (append-nil image) w
run_data-IsLoading write_fn view before image xfer app (ctx ∷ rs) memory whole w =
    let o = transfer_data xfer ctx app in
    let next = transfer_data-IsLoading write_fn view before image xfer ctx app memory whole.0 w in
    rw (← append_assoc image (added xfer o ctx) (received o.xfer o.app rs)) (
      run_data-IsLoading write_fn view before (image ++ added xfer o ctx) o.xfer o.app rs memory
        whole.1 next)
