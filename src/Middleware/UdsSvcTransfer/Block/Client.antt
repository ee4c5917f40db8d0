-- ===== src/Middleware/UdsSvcTransfer/Block/Client.antt =====
-- A client that sends its blocks in turn, each as often as it takes to hear the answer.
use nx_c_util.Base.{
  ℕ, zero, suc, ◌+◌, ◌≤◌, ◌<◌, ◌≡◌, refl, sym, ap, ap₂, ◌∙◌, arith, true, inl, inr, some, List, [],
  ◌∷◌, ◌++◌, length, replicate, ◌+32◌, ◌-32◌, u8, get_or, set, take-all, length-append,
}
use mathlib.Core.List.{append-nil, append_assoc}
use nx_c_util.Middleware.Uds.{request, Ctx}
use nx_c_util.Middleware.UdsSvcTransfer.{download, payload_room, Xfer, Outcome, WriteFn}
use nx_c_util.Middleware.UdsSvcTransfer.Block.{
  programming_failure, commit, repeat, write_block, carry, fit, new_block, take_block,
  transfer_data,
}
use nx_c_util.Middleware.UdsSvcTransfer.Block.Repeat.{transfer_data-take_block}
use nx_c_util.Middleware.UdsSvcTransfer.Block.Image.{Memory, IsLoading}
use nx_c_util.Middleware.UdsSvcTransfer.Block.Memory.{
  run_data, stored-IsLoading, call, same-IsLoading, write_block-some, payload_room-le,
}

-- The request that carries a block; the other fields of the transaction are those of `ctx`.
unfoldable pub message : Ctx → (bsc : ℕ) → List ℕ → Ctx
message ctx bsc bytes = record ctx {
  phase = request;
  req = 0x36 ∷ bsc ∷ bytes;
  req_len = 2 + length bytes;
}

-- The requests for a list of blocks, each sent once and `again` more times, from the counter `bsc` on.
unfoldable pub messages : Ctx → (bsc : ℕ) → List (List ℕ × ℕ) → List Ctx
unfolding message
messages ctx bsc [] = []
messages ctx bsc ((bytes, again) ∷ blocks) =
    replicate (suc again) (message ctx bsc bytes) ++ messages ctx (u8 (bsc + 1)) blocks

-- What the blocks hold.
unfoldable pub contents : List (List ℕ × ℕ) → List ℕ
contents [] = []
contents ((bytes, again) ∷ blocks) = bytes ++ contents blocks

-- No block is empty or larger than what was announced.
abbrev pub AreBlocks : (room : ℕ) → List (List ℕ × ℕ) → Type 0
AreBlocks room [] = Unit
AreBlocks room ((bytes, again) ∷ blocks) =
    (0 < length bytes) × (length bytes ≤ room) × AreBlocks room blocks

-- The counters of a transfer that waits for the block `bsc`.
pub record Awaits {M : Type 0} (xfer : Xfer M) (bsc : ℕ) : Type 0 where
  pub next : xfer.run.bsc_next ≡ bsc
  pub byte : bsc < 256
  pub last : xfer.run.committed ≡ true → bsc ≡ u8 (xfer.run.bsc_last + 1)
  pub last_byte : xfer.run.bsc_last < 256

module _ {M : Type 0} where
  new_block-in_turn :
      (xfer : Xfer M) (ctx : Ctx) (app : M) (len : ℕ)
      → xfer.run.dir ≡ download
      → get_or ctx.req 1 0 ≡ xfer.run.bsc_next
      → ctx.req_len -32 2 ≡ len
      → 0 < len
      → len ≤ payload_room xfer.run.block_len
      → xfer.run.sent +32 len ≤ xfer.run.size
      → let bsc = get_or ctx.req 1 0 in
        new_block xfer ctx app
        ≡ write_block xfer.cfg.write_fn xfer (record ctx { out = set ctx.out 1 bsc }) app bsc len
  unfolding new_block fit carry
  new_block-in_turn xfer ctx app len down turn size pos room fits = ground arith

  take_block-fresh :
      (xfer : Xfer M) (ctx : Ctx) (app : M)
      → xfer.run.dir ≡ download
      → Awaits xfer (get_or ctx.req 1 0)
      → take_block xfer ctx app ≡ new_block xfer ctx app
  unfolding take_block
  take_block-fresh xfer ctx app down w = ground arith

  take_block-again :
      (xfer : Xfer M) (ctx : Ctx) (app : M)
      → xfer.run.dir ≡ download
      → xfer.run.committed ≡ true
      → get_or ctx.req 1 0 ≡ xfer.run.bsc_last
      → ((take_block xfer ctx app).xfer ≡ xfer) × ((take_block xfer ctx app).app ≡ app)
  unfolding take_block repeat
  take_block-again xfer ctx app down again same = ground arith

  run_data-append :
      (xfer : Xfer M) (app : M) (rs ss : List Ctx)
      → run_data xfer app (rs ++ ss) ≡ run_data (run_data xfer app rs).0 (run_data xfer app rs).1 ss
  unfolding run_data
  run_data-append xfer app [] ss = refl
  run_data-append xfer app (r ∷ rs) ss =
      run_data-append (transfer_data xfer r app).xfer (transfer_data xfer r app).app rs ss

  -- The block again, any number of times.
  run_data-again :
      (n : ℕ) (xfer : Xfer M) (app : M) (ctx : Ctx) (bsc : ℕ) (bytes : List ℕ)
      → xfer.run.dir ≡ download
      → xfer.run.committed ≡ true
      → bsc ≡ xfer.run.bsc_last
      → run_data xfer app (replicate n (message ctx bsc bytes)) ≡ (xfer, app)
  unfolding run_data message
  run_data-again zero xfer app ctx bsc bytes down again same = refl
  run_data-again (suc n) xfer app ctx bsc bytes down again same =
      let msg = record ctx {
        phase = request;
        req = 0x36 ∷ bsc ∷ bytes;
        req_len = 2 + length bytes;
      } in
      let first = transfer_data-take_block xfer msg app refl in
      let still = take_block-again xfer msg app down again same in
      ap₂ (λ x m. run_data x m (replicate n msg)) (ap (λ (o : Outcome M). o.xfer) first ∙ still.0)
        (ap (λ (o : Outcome M). o.app) first ∙ still.1)
      ∙ run_data-again n xfer app ctx bsc bytes down again same

  -- Every copy but the first changes nothing.
  run_data-repeats :
      (xfer : Xfer M) (app : M) (ctx : Ctx) (bsc : ℕ) (bytes : List ℕ) (again : ℕ) (rest : List Ctx)
      (x : Xfer M) (m : M)
      → (transfer_data xfer (message ctx bsc bytes) app).xfer ≡ x
      → (transfer_data xfer (message ctx bsc bytes) app).app ≡ m
      → x.run.dir ≡ download
      → x.run.committed ≡ true
      → bsc ≡ x.run.bsc_last
      → run_data xfer app (replicate (suc again) (message ctx bsc bytes) ++ rest)
        ≡ run_data x m rest
  run_data-repeats xfer app ctx bsc bytes again rest x m ex em down committed same =
      let msg = message ctx bsc bytes in
      let first : run_data xfer app (replicate (suc again) msg ++ rest)
          ≡ run_data x m (replicate again msg ++ rest) =
        (unfold run_data in ap₂ (λ x m. run_data x m (replicate again msg ++ rest)) ex em) in
      first
      ∙ run_data-append x m (replicate again msg) rest
      ∙ ap (λ (s : Xfer M × M). run_data s.0 s.1 rest)
          (run_data-again again x m ctx bsc bytes down committed same)

  committed-commit :
      (xfer x : Xfer M) (bsc len : ℕ)
      → x ≡ record xfer { run = commit xfer.run bsc len }
      → (x.run.committed ≡ true)
        × (bsc ≡ x.run.bsc_last)
        × (x.run.block_len ≡ xfer.run.block_len)
        × (x.run.size ≡ xfer.run.size)
  unfolding commit
  committed-commit xfer x bsc len e = (
    ap (λ (x : Xfer M). x.run.committed) e,
    sym (ap (λ (x : Xfer M). x.run.bsc_last) e),
    ap (λ (x : Xfer M). x.run.block_len) e,
    ap (λ (x : Xfer M). x.run.size) e,
  )

  commit-Awaits :
      (xfer x : Xfer M) (bsc len : ℕ)
      → x ≡ record xfer { run = commit xfer.run bsc len }
      → bsc < 256
      → Awaits x (u8 (bsc + 1))
  unfolding commit
  commit-Awaits xfer x bsc len e h =
      let last : x.run.bsc_last ≡ bsc = ap (λ (x : Xfer M). x.run.bsc_last) e in
      record {
        next = ap (λ (x : Xfer M). x.run.bsc_next) e;
        byte = omega arith;
        last = λ c. omega (arith, last);
        last_byte = omega (arith, last);
      }

module _ {M : Type 0} (write_fn : WriteFn M) (view : M → ℕ → ℕ) (memory : Memory write_fn view)
    (always : (m : M) (addr : ℕ) (bytes : List ℕ) (nrc : ℕ) → (write_fn m addr bytes nrc).0 ≡ true)
    (before : M) where
  -- One block, sent for the first time.
  deliver :
      (image : List ℕ) (xfer : Xfer M) (app : M) (ctx : Ctx) (bsc : ℕ) (bytes : List ℕ)
      → IsLoading write_fn view before image xfer app
      → Awaits xfer bsc
      → 0 < length bytes
      → length bytes ≤ payload_room xfer.run.block_len
      → length image + length bytes ≤ xfer.run.size
      → let o = transfer_data xfer (message ctx bsc bytes) app in
        (o.xfer ≡ record xfer { run = commit xfer.run bsc (length bytes) })
        × IsLoading write_fn view before (image ++ bytes) o.xfer o.app
  unfolding message call
  deliver image xfer app ctx bsc bytes w a pos room fits =
      let len = length bytes in
      let msg = record ctx { phase = request; req = 0x36 ∷ bsc ∷ bytes; req_len = 2 + len } in
      let o = transfer_data xfer msg app in
      let room_le = payload_room-le xfer.run.block_len in
      let ctx' = record msg { out = set ctx.out 1 bsc } in
      let e : o ≡ write_block (some write_fn) xfer ctx' app bsc len =
        transfer_data-take_block xfer msg app refl
        ∙ take_block-fresh xfer msg app w.down a
        ∙ new_block-in_turn xfer msg app len w.down (sym a.next) (omega (arith, w.block)) pos room
            (omega (arith, w.reached, w.block))
        ∙ ap (λ f. write_block f xfer ctx' app bsc len) w.writes in
      let r =
        write_block-some write_fn xfer ctx' app bsc len bytes (take-all len bytes (omega arith)) in
      let e_app = ap (λ (o : Outcome M). o.app) e ∙ r.0 in
      let e_xfer = ap (λ (o : Outcome M). o.xfer) e in
      elim r.1 [
        | inl (ok, moved) ↦ (
          e_xfer ∙ moved,
          same-IsLoading write_fn view before image bytes bytes o.xfer _ o.app _ (e_xfer ∙ moved)
              e_app refl
              (stored-IsLoading write_fn view memory before image xfer app w bsc len bytes refl pos
                fits ok),
        )
        | inr (failed, still) ↦ absurd (
            ground (
              arith,
              failed,
              always app (xfer.run.addr +32 xfer.run.sent) bytes programming_failure,
            ))
      ]

  -- Where a client starts at the block `bsc`, sends its blocks in turn, each once and then again any number of
  -- times, and every write succeeds: all of them are stored, one behind the other, each once, if they are
  -- not empty, no larger than was announced and fit the region; outside the region nothing has changed.
  pub run_data-messages :
      (image : List ℕ) (xfer : Xfer M) (app : M) (ctx : Ctx) (bsc : ℕ) (blocks : List (List ℕ × ℕ))
      → IsLoading write_fn view before image xfer app
      → Awaits xfer bsc
      → AreBlocks (payload_room xfer.run.block_len) blocks
      → length image + length (contents blocks) ≤ xfer.run.size
      → let (xfer', app') = run_data xfer app (messages ctx bsc blocks) in
        IsLoading write_fn view before (image ++ contents blocks) xfer' app'
  unfolding messages contents
  run_data-messages image xfer app ctx bsc [] w a sizes fits =
      unfold run_data in rw (append-nil image) w
  run_data-messages image xfer app ctx bsc ((bytes, again) ∷ blocks) w a sizes fits =
      let o = transfer_data xfer (message ctx bsc bytes) app in
      let sum = length-append bytes (contents blocks) in
      let (moved, w') =
        deliver image xfer app ctx bsc bytes w a sizes.0 sizes.1 (omega (arith, sum)) in
      let rest = messages ctx (u8 (bsc + 1)) blocks in
      let room : payload_room o.xfer.run.block_len ≡ payload_room xfer.run.block_len =
        ap payload_room (committed-commit xfer o.xfer bsc (length bytes) moved).2 in
      let size : o.xfer.run.size ≡ xfer.run.size =
        (committed-commit xfer o.xfer bsc (length bytes) moved).3 in
      let e : run_data xfer app (replicate (suc again) (message ctx bsc bytes) ++ rest)
          ≡ run_data o.xfer o.app rest =
        run_data-repeats xfer app ctx bsc bytes again rest o.xfer o.app refl refl w'.down
          (committed-commit xfer o.xfer bsc (length bytes) moved).0
          (committed-commit xfer o.xfer bsc (length bytes) moved).1 in
      rw (e, ← append_assoc image bytes (contents blocks))
        (run_data-messages (image ++ bytes) o.xfer o.app ctx (u8 (bsc + 1)) blocks w'
          (commit-Awaits xfer o.xfer bsc (length bytes) moved a.byte) (rw room sizes.2)
          (omega (arith, sum, length-append image bytes)))
