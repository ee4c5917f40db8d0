-- ===== src/Middleware/CanIsotp/Tests.antt =====
-- Runs of nx_can_isotp.c at concrete inputs, and the theorems about it at such inputs.
use nx_c_util.Base.{
  ℕ, ◌+◌, ◌*◌, ◌-◌, ◌≤◌, ◌≡◌, refl, arith, true, false, some, List, [], ◌∷◌, ◌++◌, length, min,
  take, map,
}
use nx_c_util.Middleware.CanBus.{Msg, max_dlc, dlc_to_len, len_to_dlc}
use nx_c_util.Middleware.CanBus.Lengths.{len_to_dlc-dlc_to_len}
use nx_c_util.Middleware.CanIsotp.Send.Waits.{Waits, apply_fcs, apply_fcs-Waits}
use nx_c_util.Middleware.CanIsotp.{
  sdu_of, indication, wait_fc, publish, report, to_upper, Cfg, Isotp, Sdu, physical, n_ok,
}
use nx_c_util.Middleware.CanIsotp.Emit.{
  frame_of, cf_pci, sf_capacity, emit_ff, emit_sf, emit_frame, to_link, chunk_len, ff_pci, sf_pci,
  dlc_for,
}
use nx_c_util.Middleware.CanIsotp.Send.{
  tx_apply_fc, hold_on, is_wait_fc, request_tx, send_in, send_next, send_first, begun, tx_ff_done,
  tx_abort,
}
use nx_c_util.Middleware.CanIsotp.Receive.{too_long}
use nx_c_util.Middleware.CanIsotp.Emit.Frames.{Fits, frame_of-Fits}
use nx_c_util.Middleware.CanIsotp.Process.{
  cleared_rx, cleared_tx, send, process, ok, frame_len_valid, expire_tx, retry_fc, expire_rx,
  drain_can_rx, intake_all,
}
use nx_c_util.Middleware.CanIsotp.Reassembly.Step.{Ready}
use nx_c_util.Middleware.CanIsotp.Reassembly.Last.{Delivers}
use nx_c_util.Middleware.CanIsotp.Reassembly.Whole.{feed_all}
use nx_c_util.Middleware.CanIsotp.Reassembly.Consecutive.{segments}
use nx_c_util.Middleware.CanIsotp.Reassembly.Message.{segments-Delivers}

abbrev tester : Cfg
tester = record {
  max_frame_len = 8;
  ext_id = false;
  fd_frames = false;
  brs = false;
  pad_frames = true;
  pad_byte = 0xCC;
  ch = 0;
  phys_rx_id = 0x7E8;
  phys_tx_id = 0x7E0;
  func_rx_id = 0;
  func_tx_id = 0x7DF;
  pool = λ count size. true;
  link = 1;
  confirm_tx = true;
  get_us = λ count. count * 10;
  n_as_us = 1000000;
  n_ar_us = 1000000;
  n_bs_us = 1000000;
  n_cr_us = 1000000;
  n_wft_max = 4;
  rx_max_len = 0;
  rx_block_size = 2;
  rx_stmin = 0;
  tx_frames_per_process = 0;
}

abbrev ecu : Cfg
ecu = record tester { phys_rx_id = 0x7E0; phys_tx_id = 0x7E8; func_tx_id = 0; func_rx_id = 0x7DF }

abbrev node : Cfg → Isotp
node cfg = record {
  cfg = cfg;
  rx = cleared_rx;
  tx = cleared_tx;
  sdu_rx = record { items = []; capacity = 2 };
  sdu_tx = record { items = []; capacity = 2 };
  can_rx = record { items = []; capacity = 8 };
  can_tx = record { items = []; capacity = 8 };
  allocs = 0;
  reads = 0;
}

abbrev payload : List ℕ
payload =
    10 ∷ 11 ∷ 12 ∷ 13 ∷ 14 ∷ 15 ∷ 16 ∷ 17 ∷ 18 ∷ 19 ∷ 20 ∷ 21 ∷ 22 ∷ 23 ∷ 24 ∷ 25 ∷ 26 ∷ 27 ∷ 28
    ∷ 29 ∷ []

first_out :
    let (r, a) = send (node tester) payload 20 physical in
    (r ≡ ok)
    × (map (λ (f : Msg). f.bytes) (process a).can_tx.items
        ≡ (0x10 ∷ 20 ∷ 10 ∷ 11 ∷ 12 ∷ 13 ∷ 14 ∷ 15 ∷ []) ∷ [])
unfolding send process publish request_tx send_in expire_tx retry_fc expire_rx drain_can_rx
    intake_all send_next send_first begun sf_capacity emit_ff emit_sf emit_frame to_link chunk_len
    ff_pci sf_pci dlc_to_len len_to_dlc dlc_for frame_of tx_ff_done tx_abort report to_upper
first_out = (refl, refl)

single_out :
    let (r, a) = send (node tester) (0x3E ∷ 0 ∷ []) 2 physical in
    (map (λ (f : Msg). f.bytes) (process a).can_tx.items
      ≡ (2 ∷ 0x3E ∷ 0 ∷ 0xCC ∷ 0xCC ∷ 0xCC ∷ 0xCC ∷ 0xCC ∷ []) ∷ [])
    × (map (λ (s : Sdu). s.result) (process a).sdu_tx.items ≡ n_ok ∷ [])
unfolding send process publish request_tx send_in expire_tx retry_fc expire_rx drain_can_rx
    intake_all send_next send_first begun sf_capacity emit_ff emit_sf emit_frame to_link chunk_len
    ff_pci sf_pci dlc_to_len len_to_dlc dlc_for frame_of tx_ff_done tx_abort report to_upper
single_out = (refl, refl)

len_to_dlc-dlc_to_len_example :
    (len_to_dlc 10 ≤ max_dlc)
    × (10 ≤ dlc_to_len (len_to_dlc 10))
    × (10 ≤ dlc_to_len 9 → len_to_dlc 10 ≤ 9)
    × (len_to_dlc (dlc_to_len 9) ≡ 9)
len_to_dlc-dlc_to_len_example = len_to_dlc-dlc_to_len 10 9 (omega arith) (omega arith)

-- The comment on `nx_can_len_to_dlc` gives the code 10 and 16 bytes for this length.
ten_bytes : (len_to_dlc 10 ≡ 9) × (dlc_to_len 9 ≡ 12)
unfolding len_to_dlc dlc_to_len
ten_bytes = (refl, refl)

frame_of-Fits_example :
    let m = frame_of tester 0x7E0 payload 20 (cf_pci 1) in
    let chunk = min 20 (8 - length (cf_pci 1)) in
    Fits tester (length (cf_pci 1) + chunk) m.dlc
    × (length m.bytes ≡ dlc_to_len m.dlc)
    × ((pad : List ℕ) × (m.bytes ≡ cf_pci 1 ++ (take chunk payload ++ pad)))
unfolding frame_len_valid dlc_to_len len_to_dlc cf_pci
frame_of-Fits_example =
    frame_of-Fits tester 0x7E0 payload 20 (cf_pci 1) refl (omega arith) (omega arith)

ecu-Ready : Ready (node ecu)
ecu-Ready = record {
  pool = λ count size. refl;
  link = refl;
  room = omega arith;
  upper = omega arith;
}

segments-Delivers_example :
    Delivers payload (node ecu) (feed_all (node ecu) (segments tester 0x7E0 payload))
unfolding frame_len_valid dlc_to_len len_to_dlc sf_capacity too_long
segments-Delivers_example =
    segments-Delivers tester 0x7E0 payload (node ecu) refl (omega arith) (omega arith) ecu-Ready
      refl refl

-- A transmission that has been asked to wait three times, of four that are tolerated.
abbrev waiting : Isotp
waiting = record (node tester) {
  tx = record cleared_tx {
    state = wait_fc;
    total = 20;
    sent = 6;
    wft = 3;
    sdu = some (sdu_of (node tester) indication physical n_ok payload 20);
  };
}

abbrev wait_frame : Msg
wait_frame = record {
  id = 0x7E8;
  ch = 0;
  dlc = 3;
  is_ext = false;
  is_fd = false;
  brs = false;
  bytes = 0x31 ∷ 0 ∷ 0 ∷ [];
}

apply_fcs-Waits_example : Waits waiting 2 (apply_fcs waiting (wait_frame ∷ wait_frame ∷ []))
unfolding dlc_to_len
apply_fcs-Waits_example =
    apply_fcs-Waits waiting (wait_frame ∷ wait_frame ∷ []) refl (omega arith) (omega arith) refl

-- Where 255 are tolerated the count wraps, and the wait is never given up.
endless :
    let iso = record waiting {
      cfg = record tester { n_wft_max = 255 };
      tx = record waiting.tx { wft = 255 };
    } in
    let o = tx_apply_fc iso wait_frame in (o.tx.wft ≡ 0) × (is_wait_fc o.tx.state ≡ true)
unfolding tx_apply_fc dlc_to_len hold_on
endless = (refl, refl)
