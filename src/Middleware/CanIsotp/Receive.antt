-- ===== src/Middleware/CanIsotp/Receive.antt =====
-- src/middleware/nx_can_isotp.c: the receiving half.
use nx_c_util.Base.{
  ℕ, ◌+◌, ◌-◌, Bool, not, ◌&&◌, ◌||◌, Option, none, some, List, ltb, leb, ◌==◌, if◌then◌else◌,
  bit_and, bit_or, u8, u32, ◌+32◌, ◌-32◌, ◌<<◌, get_or, take, drop, replicate, copy_at,
}
use nx_c_util.Middleware.CanBus.{Msg, max_classic_len, dlc_to_len}
use nx_c_util.Middleware.CanIsotp.{
  TaType, physical, indication, TpResult, n_ok, n_unexp_pdu, n_buffer_ovflw, n_wrong_sn, Sdu,
  sdu_of, max_msg_len, Cfg, Rx, idle, assem, is_idle, is_assem, Isotp, now, read, alloc, allocated,
  to_upper, report,
}
use nx_c_util.Middleware.CanIsotp.Emit.{emit_fc, emit_cts}

-- `istp_rx_reset`
unfoldable pub rx_reset : Isotp → Isotp
rx_reset iso = record iso {
  rx = record iso.rx { acc = none; state = idle; sn = 0; total = 0; filled = 0; block_left = 0 };
}

-- `istp_rx_abort`
unfoldable pub rx_abort : Isotp → TpResult → Isotp
rx_abort iso result =
    if is_idle iso.rx.state then rx_reset iso else report (rx_reset iso) indication result

-- `istp_rx_finish`
unfoldable pub rx_finish : Isotp → Isotp
rx_finish iso = elim iso.rx.acc [ none ↦ rx_reset iso | some m ↦ to_upper (rx_reset iso) m ]

-- `istp_rx_single`
unfoldable pub rx_single : Isotp → TaType → (d : List ℕ) → (plen hdr : ℕ) → Isotp
rx_single iso ta_type d plen hdr =
    if not (alloc iso (8 + plen))
    then allocated iso
    else to_upper (allocated iso) (sdu_of iso indication ta_type n_ok (take plen (drop hdr d)) plen)

-- `istp_sf_len`: the length and the header's.
unfoldable pub sf_len : (d : List ℕ) → (dlen : ℕ) → Option (ℕ × ℕ)
sf_len d dlen =
    let plen = bit_and (get_or d 0 0) 0x0F in
    let escaped = get_or d 1 0 in
    if plen == 0
    then (if leb dlen max_classic_len || ltb dlen 2
        then none
        else if leb escaped 7
        then none
        else if escaped == 0 || ltb (dlen -32 2) escaped
        then none
        else some (escaped, 2))
    else if ltb max_classic_len dlen
    then none
    else if plen == 0 || ltb (dlen -32 1) plen
    then none
    else some (plen, 1)

-- The single frame of `istp_rx_phys_frame` and of `istp_intake`, once nothing is in progress.
unfoldable pub take_single : Isotp → TaType → (d : List ℕ) → (dlen : ℕ) → Isotp
take_single iso ta_type d dlen = elim (sf_len d dlen) [
  | none ↦ iso
  | some (plen, hdr) ↦ rx_single iso ta_type d plen hdr
]

-- The length that a first frame announces, and the header's; nothing where it is too short.
unfoldable pub ff_len : (d : List ℕ) → (dlen : ℕ) → Option (ℕ × ℕ)
ff_len d dlen =
    let total = bit_or (u32 (bit_and (get_or d 0 0) 0x0F << 8)) (get_or d 1 0) in
    let escaped = u32 (
      bit_or (bit_or (bit_or (get_or d 2 0 << 24) (get_or d 3 0 << 16)) (get_or d 4 0 << 8))
        (get_or d 5 0)) in
    if ltb dlen 2
    then none
    else if not (total == 0)
    then some (total, 2)
    else if ltb dlen 6
    then none
    else if escaped == 0
    then none
    else some (escaped, 6)

-- A first frame that there is no room for.
unfoldable pub refuse_first : Isotp → Isotp
refuse_first iso = let (sent, after) = emit_fc iso 0x02 0 0 in rx_abort after n_buffer_ovflw

-- Whether a message of that length is more than an allocation can express, or than is accepted.
unfoldable pub too_long : Cfg → (total : ℕ) → Bool
too_long cfg total =
    ltb max_msg_len total || (not (cfg.rx_max_len == 0) && ltb cfg.rx_max_len total)

-- The bytes of a first frame that are stored.
unfoldable pub ff_have : (dlen hdr total : ℕ) → ℕ
ff_have dlen hdr total =
    let have = if ltb hdr dlen then dlen -32 hdr else 0 in if ltb total have then total else have

-- The reception that a first frame starts; the block's bytes beyond the frame's are not written yet.
unfoldable pub started : Isotp → (d : List ℕ) → (dlen total hdr : ℕ) → Isotp
started iso d dlen total hdr =
    let have = ff_have dlen hdr total in
    let bytes = copy_at (replicate total 0) 0 (take have (drop hdr d)) in
    record (read iso) {
      rx = record iso.rx {
        acc = some (sdu_of iso indication physical n_ok bytes total);
        state = assem;
        sn = 1;
        total = total;
        deadline = now iso +32 iso.cfg.n_cr_us;
        filled = have;
      };
    }

-- A first frame whose length is known.
unfoldable pub start : Isotp → (d : List ℕ) → (dlen total hdr : ℕ) → Isotp
start iso d dlen total hdr =
    if too_long iso.cfg total
    then refuse_first iso
    else if not (alloc iso (8 + total))
    then refuse_first (allocated iso)
    else let after = started (allocated iso) d dlen total hdr in
      if leb total after.rx.filled then rx_finish after else emit_cts after

-- The first frame of `istp_rx_phys_frame`, once nothing is in progress.
unfoldable pub take_first : Isotp → (d : List ℕ) → (dlen : ℕ) → Isotp
take_first iso d dlen = elim (ff_len d dlen) [
  | none ↦ iso
  | some (total, hdr) ↦ start iso d dlen total hdr
]

-- The bytes of a consecutive frame that are stored.
unfoldable pub cf_have : Rx → (dlen : ℕ) → ℕ
cf_have rx dlen =
    let have = dlen -32 1 in
    let room = rx.total -32 rx.filled in if ltb room have then room else have

-- The message with them.
unfoldable pub stored : Option Sdu → (filled : ℕ) → List ℕ → Option Sdu
stored none filled bytes = none
stored (some m) filled bytes = some (record m { bytes = copy_at m.bytes filled bytes })

-- The reception with the bytes of a consecutive frame.
unfoldable pub advanced : Isotp → (d : List ℕ) → (dlen : ℕ) → Isotp
advanced iso d dlen =
    let have = cf_have iso.rx dlen in
    record (read iso) {
      rx = record iso.rx {
        acc = stored iso.rx.acc iso.rx.filled (take have (drop 1 d));
        filled = iso.rx.filled +32 have;
        sn = u8 (bit_and (iso.rx.sn + 1) 0x0F);
        deadline = now iso +32 iso.cfg.n_cr_us;
      };
    }

-- A block that has run out is refreshed with new flow control.
unfoldable pub count_block : Isotp → Isotp
count_block iso =
    if iso.rx.block_left == 0
    then iso
    else let left = iso.rx.block_left - 1 in
      let counted = record iso { rx = record iso.rx { block_left = left } } in
      if left == 0 then emit_cts counted else counted

-- A consecutive frame in its turn.
unfoldable pub append_frame : Isotp → (d : List ℕ) → (dlen : ℕ) → Isotp
append_frame iso d dlen =
    let after = advanced iso d dlen in
    if leb after.rx.total after.rx.filled then rx_finish after else count_block after

-- The consecutive frame of `istp_rx_phys_frame`.
unfoldable pub take_consecutive : Isotp → (d : List ℕ) → (dlen : ℕ) → Isotp
take_consecutive iso d dlen =
    if not (is_assem iso.rx.state)
    then iso
    else if not (bit_and (get_or d 0 0) 0x0F == iso.rx.sn)
    then rx_abort iso n_wrong_sn
    else append_frame iso d dlen

-- `istp_rx_phys_frame`
unfoldable pub rx_phys_frame : Isotp → Msg → Isotp
rx_phys_frame iso frame =
    let d = frame.bytes in
    let dlen = dlc_to_len frame.dlc in
    let pci_kind = bit_and (get_or d 0 0) 0xF0 in
    if pci_kind == 0x00
    then take_single (rx_abort iso n_unexp_pdu) physical d dlen
    else if pci_kind == 0x10
    then take_first (rx_abort iso n_unexp_pdu) d dlen
    else if pci_kind == 0x20
    then take_consecutive iso d dlen
    else iso
