-- ===== src/Middleware/CanIsotp/Process.antt =====
-- src/middleware/nx_can_isotp.c: intake of frames, and the public functions.
use nx_c_util.Base.{
  ℕ, ◌+◌, Bool, true, false, not, ◌&&◌, ◌||◌, Option, none, some, List, [], ◌∷◌, ltb, ◌==◌,
  if◌then◌else◌, bit_and, reached, get_or, take,
}
use nx_c_util.Middleware.CanBus.{Msg, max_ch, dlc_to_len, len_to_dlc}
use nx_c_util.Middleware.CanIsotp.{
  TaType, is_functional, functional, indication, n_ok, n_timeout_a, n_timeout_bs, n_timeout_cr,
  sdu_of, max_msg_len, Cfg, Rx, idle, is_assem, is_fc_wait, Tx, at_rest, publish, Isotp, now, read,
  alloc, allocated,
}
use nx_c_util.Middleware.CanIsotp.Emit.{sf_capacity, emit_cts}
use nx_c_util.Middleware.CanIsotp.Receive.{rx_abort, take_single, rx_phys_frame}
use nx_c_util.Middleware.CanIsotp.Send.{is_wait_fc, is_wait_link, tx_abort, tx_apply_fc, request_tx}

abbrev same : Bool → Bool → Bool
same true b = b
same false b = not b

-- `istp_intake`
unfoldable pub intake : Isotp → Msg → Isotp
intake iso frame =
    let dlen = dlc_to_len frame.dlc in
    let kind = bit_and (get_or frame.bytes 0 0) 0xF0 in
    if dlen == 0
    then iso
    else if not (frame.ch == iso.cfg.ch)
    then iso
    else if not (same frame.is_ext iso.cfg.ext_id)
    then iso
    else if frame.id == iso.cfg.phys_rx_id
    then (if kind == 0x30 then tx_apply_fc iso frame else rx_phys_frame iso frame)
    else if not (iso.cfg.func_rx_id == 0) && (frame.id == iso.cfg.func_rx_id)
    then (if not (kind == 0x00) then iso else take_single iso functional frame.bytes dlen)
    else iso

-- The frames of the queue in turn.
unfoldable pub intake_all : Isotp → List Msg → Isotp
intake_all iso [] = iso
intake_all iso (frame ∷ frames) = intake_all (intake iso frame) frames

-- `istp_drain_can_rx`
unfoldable pub drain_can_rx : Isotp → Isotp
drain_can_rx iso =
    intake_all (record iso { can_rx = record iso.can_rx { items = [] } }) iso.can_rx.items

-- `istp_frame_len_valid`
unfoldable pub frame_len_valid : ℕ → Bool
frame_len_valid len = not (ltb len 8) && (dlc_to_len (len_to_dlc len) == len)

-- The channel, the identifiers and the geometry that `nx_can_isotp_init` accepts.
unfoldable pub accepts : Cfg → Bool
accepts cfg =
    if not (frame_len_valid cfg.max_frame_len)
    then false
    else if ltb 8 cfg.max_frame_len && not cfg.fd_frames
    then false
    else if cfg.brs && not cfg.fd_frames
    then false
    else if ltb max_ch cfg.ch
    then false
    else if (cfg.phys_rx_id == 0) || (cfg.phys_tx_id == 0) || (cfg.phys_rx_id == cfg.phys_tx_id)
    then false
    else if not (cfg.func_rx_id == 0)
        && ((cfg.func_rx_id == cfg.phys_rx_id) || (cfg.func_rx_id == cfg.phys_tx_id))
    then false
    else not (
        not (cfg.func_tx_id == 0)
        && ((cfg.func_tx_id == cfg.phys_rx_id)
            || (cfg.func_tx_id == cfg.phys_tx_id)
            || (cfg.func_tx_id == cfg.func_rx_id)))

abbrev or_default : (value default : ℕ) → ℕ
or_default value default = if value == 0 then default else value

-- The configuration with its defaults.
unfoldable pub resolved : Cfg → Cfg
resolved cfg = record cfg {
  n_as_us = or_default cfg.n_as_us 1000000;
  n_ar_us = or_default cfg.n_ar_us 1000000;
  n_bs_us = or_default cfg.n_bs_us 1000000;
  n_cr_us = or_default cfg.n_cr_us 1000000;
  n_wft_max = or_default cfg.n_wft_max 4;
}

-- The runtime state that `nx_can_isotp_init` clears.
abbrev pub cleared_rx : Rx
cleared_rx = record {
  state = idle;
  sn = 0;
  block_left = 0;
  total = 0;
  filled = 0;
  acc = none;
  deadline = 0;
}

abbrev pub cleared_tx : Tx
cleared_tx = record {
  state = at_rest;
  sn = 0;
  bs = 0;
  wft = 0;
  ta_type = TaType.physical;
  sent = 0;
  total = 0;
  stmin_us = 0;
  last_us = 0;
  deadline = 0;
  tx_id = 0;
  sdu = none;
}

-- `nx_can_isotp_init`, on an instance with its queues; nothing where it returns false.
unfoldable pub init : Isotp → Cfg → Option Isotp
init iso cfg =
    if not (accepts cfg)
    then none
    else some (record iso { cfg = resolved cfg; rx = cleared_rx; tx = cleared_tx })

-- The deadlines of a reception in `nx_can_isotp_process`.
unfoldable pub expire_rx : (time : ℕ) → Isotp → Isotp
expire_rx time iso0 =
    let iso =
      if is_assem iso0.rx.state && reached time iso0.rx.deadline
      then rx_abort iso0 n_timeout_cr
      else iso0 in
    if is_fc_wait iso.rx.state && reached time iso.rx.deadline
    then rx_abort iso n_timeout_a
    else iso

-- The flow control that is still to be sent.
unfoldable pub retry_fc : Isotp → Isotp
retry_fc iso = if is_fc_wait iso.rx.state then emit_cts iso else iso

-- The deadlines of a transmission.
unfoldable pub expire_tx : (time : ℕ) → Isotp → Isotp
expire_tx time iso0 =
    let iso =
      if is_wait_fc iso0.tx.state && reached time iso0.tx.deadline
      then tx_abort iso0 n_timeout_bs
      else iso0 in
    if is_wait_link iso.tx.state && reached time iso.tx.deadline
    then tx_abort iso n_timeout_a
    else iso

-- `nx_can_isotp_process`
unfoldable pub process : Isotp → Isotp
process iso =
    let drained = drain_can_rx iso in
    let time = now drained in
    let iso' = expire_tx time (retry_fc (expire_rx time (read drained))) in
    let budget = iso'.cfg.tx_frames_per_process in
    (request_tx iso' (if budget == 0 then 255 else budget)).1

-- `nx_can_isotp_ret_t`
pub data SendRet : Type 0 where
  ok err_param err_nomem err_full err_state err_length : SendRet

-- `nx_can_isotp_send` with a payload.
unfoldable pub send : Isotp → (payload : List ℕ) → (len : ℕ) → TaType → SendRet × Isotp
send iso payload len ta_type =
    let sdu = sdu_of iso indication ta_type n_ok (take len payload) len in
    if len == 0
    then (err_param, iso)
    else if is_functional ta_type && ((iso.cfg.func_tx_id == 0) || ltb (sf_capacity iso.cfg) len)
    then (err_param, iso)
    else if ltb max_msg_len len
    then (err_length, iso)
    else if not (alloc iso (8 + len))
    then (err_nomem, allocated iso)
    else elim (publish iso.sdu_rx sdu) [
      | none ↦ (err_full, allocated iso)
      | some q ↦ (ok, record (allocated iso) { sdu_rx = q })
    ]
