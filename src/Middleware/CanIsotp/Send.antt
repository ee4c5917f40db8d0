-- ===== src/Middleware/CanIsotp/Send.antt =====
-- src/middleware/nx_can_isotp.c: the sending half.
pub mod Waits
use nx_c_util.Base.{
  ℕ, zero, suc, ◌+◌, ◌-◌, ◌^◌, Bool, true, false, not, ◌&&◌, ◌||◌, Option, none, some, List, [],
  ◌∷◌, ltb, leb, ◌==◌, if◌then◌else◌, bit_and, u8, ◌+32◌, ◌-32◌, get_or, drop,
}
use nx_c_util.Middleware.CanBus.{Msg, dlc_to_len}
use nx_c_util.Middleware.CanIsotp.{
  is_functional, confirmation, TpResult, n_ok, n_buffer_ovflw, n_wft_ovrn, n_invalid_fs, Sdu, Tx,
  TxState, at_rest, wait_fc, sending, wait_link, Isotp, now, read, stmin_to_us, report,
}
use nx_c_util.Middleware.CanIsotp.Emit.{emit_sf, sf_capacity, emit_ff, emit_cf}

abbrev pub is_wait_fc : TxState → Bool
is_wait_fc at_rest = false
is_wait_fc wait_fc = true
is_wait_fc sending = false
is_wait_fc wait_link = false

abbrev pub is_wait_link : TxState → Bool
is_wait_link at_rest = false
is_wait_link wait_fc = false
is_wait_link sending = false
is_wait_link wait_link = true

-- `istp_tx_abort`
unfoldable pub tx_abort : Isotp → TpResult → Isotp
tx_abort iso result =
    let after = record iso { tx = record iso.tx { sdu = none; state = at_rest; wft = 0 } } in
    elim iso.tx.sdu [ none ↦ after | some sdu ↦ report after confirmation result ]

-- The hold that a flow control frame asks for.
unfoldable pub hold_on : Isotp → Isotp
hold_on iso =
    let wft = u8 (iso.tx.wft + 1) in
    let counted = record iso { tx = record iso.tx { wft = wft } } in
    if ltb iso.cfg.n_wft_max wft
    then tx_abort counted n_wft_ovrn
    else record (read counted) { tx = record counted.tx { deadline = now iso +32 iso.cfg.n_bs_us } }

-- `istp_tx_apply_fc`
unfoldable pub tx_apply_fc : Isotp → Msg → Isotp
tx_apply_fc iso frame =
    let d = frame.bytes in
    let fs = bit_and (get_or d 0 0) 0x0F in
    if not (is_wait_fc iso.tx.state) || ltb (dlc_to_len frame.dlc) 3
    then iso
    else if fs == 0x02
    then tx_abort iso n_buffer_ovflw
    else if fs == 0x01
    then hold_on iso
    else if not (fs == 0x00)
    then tx_abort iso n_invalid_fs
    else record iso {
      tx = record iso.tx {
        wft = 0;
        bs = get_or d 1 0;
        stmin_us = stmin_to_us (get_or d 2 0);
        state = sending;
      };
    }

-- `istp_tx_hold`
unfoldable pub tx_hold : Isotp → Isotp
tx_hold iso = if is_wait_link iso.tx.state then iso else record (read iso) {
  tx = record iso.tx { state = wait_link; deadline = now iso +32 iso.cfg.n_as_us };
}

-- `istp_tx_ff_done`
unfoldable pub tx_ff_done : Isotp → (loaded : ℕ) → Isotp
tx_ff_done iso loaded = record (read iso) {
  tx = record iso.tx {
    sent = loaded;
    last_us = now iso;
    deadline = now iso +32 iso.cfg.n_bs_us;
    state = wait_fc;
  };
}

-- The first frame of a message, or the only one; `tx_hold` leaves one that is held already as it is.
unfoldable pub send_first : Isotp → Sdu → ℕ × Isotp
send_first iso s =
    if leb iso.tx.total (sf_capacity iso.cfg)
    then (let (sent, after) = emit_sf iso iso.tx.tx_id s.bytes iso.tx.total in
        if sent then (1, tx_abort after n_ok) else (0, tx_hold after))
    else let (loaded, after) = emit_ff iso iso.tx.tx_id s.bytes iso.tx.total in
      if loaded == 0 then (0, tx_hold after) else (1, tx_ff_done after loaded)

-- The transmission of a message from the queue.
unfoldable pub begun : Isotp → Sdu → Isotp
begun iso s = record iso {
  tx = record iso.tx {
    sdu = some s;
    total = s.len;
    sent = 0;
    sn = 1;
    wft = 0;
    ta_type = s.ta_type;
    tx_id = if is_functional s.ta_type then iso.cfg.func_tx_id else iso.cfg.phys_tx_id;
  };
}

-- At rest: pull the next request and start it.
unfoldable pub send_next : Isotp → List Sdu → ℕ × Isotp
send_next iso [] = (0, iso)
send_next iso (s ∷ rest) =
    send_first (begun (record iso { sdu_rx = record iso.sdu_rx { items = rest } }) s) s

-- The payload of the next consecutive frame.
unfoldable pub next_chunk : Isotp → ℕ
next_chunk iso =
    let chunk = iso.tx.total -32 iso.tx.sent in
    let cap = iso.cfg.max_frame_len -32 1 in if ltb cap chunk then cap else chunk

-- The next consecutive frame.
unfoldable pub emit_next : Isotp → Sdu → Bool × Isotp
emit_next iso s = emit_cf iso iso.tx.tx_id (drop iso.tx.sent s.bytes) (next_chunk iso) iso.tx.sn

-- The counters behind it, `chunk` bytes further.
unfoldable pub moved_on : Isotp → (chunk last_us : ℕ) → Isotp
moved_on iso chunk last_us = record iso {
  tx = record iso.tx {
    sent = iso.tx.sent +32 chunk;
    sn = u8 (bit_and (iso.tx.sn + 1) 0x0F);
    last_us = last_us;
  };
}

-- `tx->bs > 0u && --tx->bs == 0u`: whether the block has run out, and the count.
abbrev pub block_full : Tx → Bool
block_full tx = not (tx.bs == 0) && (tx.bs - 1 == 0)

abbrev pub counted_block : Isotp → Isotp
counted_block iso = record iso { tx = record iso.tx { bs = iso.tx.bs - 1 } }

-- The wait for flow control at the end of a block.
unfoldable pub await_fc : Isotp → (from : ℕ) → Isotp
await_fc iso from = record iso {
  tx = record iso.tx { state = wait_fc; deadline = from +32 iso.cfg.n_bs_us };
}

-- `(int32_t)(now - tx->last_us) < tx->stmin_us`, where `stmin_us` is above 0.
unfoldable pub too_soon : (time : ℕ) → Tx → Bool
too_soon time tx =
    let gap = time -32 tx.last_us in
    not (tx.stmin_us == 0) && (ltb gap tx.stmin_us || leb (2 ^ 31) gap)

-- The loop of `istp_request_tx`, with the frames that it may still emit.
unfoldable pub send_frames : (left : ℕ) → (time emitted : ℕ) → Isotp → Sdu → ℕ × Isotp
send_frames zero time emitted iso s = (emitted, iso)
send_frames (suc left) time emitted iso s =
    let chunk = next_chunk iso in
    let (sent, after) = emit_next iso s in
    let moved = moved_on after chunk time in
    let then_time = now moved in
    let counted = counted_block (read moved) in
    let rest = send_frames left then_time (emitted + 1) counted s in
    if not (ltb iso.tx.sent iso.tx.total)
    then (emitted, iso)
    else if too_soon time iso.tx
    then (emitted, iso)
    else if not sent
    then (emitted, tx_hold after)
    else if block_full moved.tx && ltb moved.tx.sent moved.tx.total
    then (emitted + 1, await_fc counted then_time)
    else rest

-- The end of `istp_request_tx`.
unfoldable pub finish_tx : ℕ × Isotp → ℕ × Isotp
finish_tx (emitted, iso) =
    if leb iso.tx.total iso.tx.sent then (emitted, tx_abort iso n_ok) else (emitted, iso)

-- The consecutive frame that was held, once the link has taken it.
unfoldable pub resumed : (budget : ℕ) → Isotp → (chunk : ℕ) → Sdu → ℕ × Isotp
resumed budget iso chunk s =
    let moved = moved_on (read iso) chunk (now iso) in
    let live = record moved { tx = record moved.tx { state = sending } } in
    let counted = counted_block live in
    if leb live.tx.total live.tx.sent
    then (1, tx_abort live n_ok)
    else if block_full live.tx
    then (1, await_fc counted live.tx.last_us)
    else finish_tx (send_frames (budget - 1) (now counted) 1 (read counted) s)

-- A frame that the link refused is offered again.
unfoldable pub send_held : (budget : ℕ) → Isotp → Sdu → ℕ × Isotp
send_held budget iso s =
    if iso.tx.sent == 0
    then send_first iso s
    else let (sent, after) = emit_next iso s in
      if sent then resumed budget after (next_chunk iso) s else (0, after)

-- `istp_request_tx` in each of its states.
unfoldable pub send_in : TxState → Option Sdu → (budget : ℕ) → Isotp → ℕ × Isotp
send_in at_rest sdu budget iso = send_next iso iso.sdu_rx.items
send_in wait_fc sdu budget iso = (0, iso)
send_in sending none budget iso = (0, iso)
send_in sending (some s) budget iso = finish_tx (send_frames budget (now iso) 0 (read iso) s)
send_in wait_link none budget iso = (0, iso)
send_in wait_link (some s) budget iso = send_held budget iso s

-- `istp_request_tx`: the frames emitted and the state.
unfoldable pub request_tx : Isotp → (budget : ℕ) → ℕ × Isotp
request_tx iso budget = send_in iso.tx.state iso.tx.sdu budget iso
