-- ===== src/Middleware/CanIsotp/Emit.antt =====
-- src/middleware/nx_can_isotp.c: the frames that go out.
pub mod Frames
use nx_c_util.Base.{
  ℕ, ◌+◌, ◌*◌, ◌-◌, Bool, true, false, not, ◌&&◌, Option, none, some, List, [], ◌∷◌, ◌++◌, length,
  ltb, leb, ◌==◌, if◌then◌else◌, bit_and, bit_or, u8, ◌-32◌, ◌+32◌, ◌>>◌, take, replicate,
}
use nx_c_util.Middleware.CanBus.{Msg, max_classic_len, dlc_to_len, len_to_dlc}
use nx_c_util.Middleware.CanIsotp.{
  Cfg, Rx, RxState, idle, assem, fc_wait, is_fc_wait, Isotp, publish, now, read, alloc, allocated,
}

-- The payload bytes in a frame with a header of `hdr` bytes.
unfoldable pub chunk_len : Cfg → (plen hdr : ℕ) → ℕ
chunk_len cfg plen hdr = let cap = cfg.max_frame_len -32 hdr in if ltb plen cap then plen else cap

-- The data length code for the bytes in use.
unfoldable pub dlc_for : Cfg → (used : ℕ) → ℕ
dlc_for cfg used =
    len_to_dlc (if cfg.pad_frames && ltb used max_classic_len then max_classic_len else used)

-- The frame that `istp_emit_frame` builds.
unfoldable pub frame_of : Cfg → (id : ℕ) → (src : List ℕ) → (plen : ℕ) → (pci : List ℕ) → Msg
frame_of cfg id src plen pci =
    let chunk = chunk_len cfg plen (length pci) in
    let used = length pci + chunk in
    let dlc = dlc_for cfg used in
    record {
      id = id;
      ch = cfg.ch;
      dlc = dlc;
      is_ext = cfg.ext_id;
      is_fd = cfg.fd_frames;
      brs = cfg.brs;
      bytes = pci ++ (take chunk src ++ replicate (dlc_to_len dlc - used) cfg.pad_byte);
    }

-- Publishing a frame: whether the queue took it, and the state.
unfoldable pub to_link : Isotp → Msg → Bool × Isotp
to_link iso m = elim (publish iso.can_tx m) [
  | none ↦ (false, iso)
  | some q ↦ (true, record iso { can_tx = q })
]

-- `istp_emit_frame`
unfoldable pub emit_frame :
    Isotp → (id : ℕ) → (src : List ℕ) → (plen : ℕ) → (pci : List ℕ) → Bool × Isotp
emit_frame iso id src plen pci =
    let m = frame_of iso.cfg id src plen pci in
    if not (alloc iso (16 + dlc_to_len m.dlc))
    then (false, allocated iso)
    else to_link (allocated iso) m

-- The header of a single frame.
unfoldable pub sf_pci : (plen : ℕ) → List ℕ
sf_pci plen = if leb plen 7 then bit_or 0x00 (u8 plen) ∷ [] else 0x00 ∷ u8 plen ∷ []

-- `istp_emit_sf`
unfoldable pub emit_sf : Isotp → (id : ℕ) → (src : List ℕ) → (plen : ℕ) → Bool × Isotp
emit_sf iso id src plen = emit_frame iso id src plen (sf_pci plen)

-- `istp_sf_capacity`
unfoldable pub sf_capacity : Cfg → ℕ
sf_capacity cfg = if leb cfg.max_frame_len 8 then 7 else cfg.max_frame_len -32 2

-- The header of a consecutive frame.
unfoldable pub cf_pci : (sn : ℕ) → List ℕ
cf_pci sn = u8 (bit_or 0x20 (bit_and sn 0x0F)) ∷ []

-- `istp_emit_cf`
unfoldable pub emit_cf : Isotp → (id : ℕ) → (src : List ℕ) → (plen sn : ℕ) → Bool × Isotp
emit_cf iso id src plen sn = emit_frame iso id src plen (cf_pci sn)

-- The header of a first frame.
unfoldable pub ff_pci : (total : ℕ) → List ℕ
ff_pci total =
    if ltb 4095 total
    then 0x10 ∷ 0x00 ∷ u8 (total >> 24) ∷ u8 (total >> 16) ∷ u8 (total >> 8) ∷ u8 total ∷ []
    else bit_or 0x10 (u8 (total >> 8)) ∷ u8 total ∷ []

-- `istp_emit_ff`: the bytes that the frame carries, 0 where it was not taken.
unfoldable pub emit_ff : Isotp → (id : ℕ) → (src : List ℕ) → (total : ℕ) → ℕ × Isotp
emit_ff iso id src total =
    let (sent, after) = emit_frame iso id src total (ff_pci total) in
    (if sent then chunk_len iso.cfg total (length (ff_pci total)) else 0, after)

-- `istp_emit_fc`
unfoldable pub emit_fc : Isotp → (fs bs stmin : ℕ) → Bool × Isotp
emit_fc iso fs bs stmin =
    emit_frame iso iso.cfg.phys_tx_id [] 0 (u8 (bit_or 0x30 (bit_and fs 0x0F)) ∷ bs ∷ stmin ∷ [])

-- Where the queue refused the flow control: wait under N_Ar, which an outstanding one is left.
unfoldable pub hold_fc : Isotp → Isotp
hold_fc iso = if is_fc_wait iso.rx.state then iso else record (read iso) {
  rx = record iso.rx { state = fc_wait; deadline = now iso +32 iso.cfg.n_ar_us };
}

-- Where it was taken.
unfoldable pub continue_rx : Isotp → Isotp
continue_rx iso = record (read iso) {
  rx = record iso.rx {
    block_left = iso.cfg.rx_block_size;
    state = assem;
    deadline = now iso +32 iso.cfg.n_cr_us;
  };
}

-- `istp_emit_cts`
unfoldable pub emit_cts : Isotp → Isotp
emit_cts iso =
    let (sent, after) = emit_fc iso 0x00 iso.cfg.rx_block_size iso.cfg.rx_stmin in
    if sent then continue_rx after else hold_fc after
