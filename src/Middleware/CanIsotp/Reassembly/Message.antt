-- ===== src/Middleware/CanIsotp/Reassembly/Message.antt =====
-- A message in several frames, from the first one on.
use mathlib.Core.Path.{subst}
use nx_c_util.Middleware.CanIsotp.Reassembly.Consecutive.{
  Ready-Keeps, drop-append, ff_have_lem, first_chunk, first_frame, front-append, reset-Ready,
  rx_abort-idle, rx_phys_frame-take_first, segments, sf_capacity_lem, start-Assembling,
  take_first-start,
}
use nx_c_util.Base.{
  ℕ, ◌<◌, ◌≡◌, ◌^◌, sym, ap, ◌∙◌, arith, true, false, List, ◌++◌, length, bit_and, get_or, take,
  drop,
}
use nx_c_util.Middleware.CanBus.{dlc_to_len}
use nx_c_util.Middleware.CanBus.Lengths.{dlc_to_len_bound}
use nx_c_util.Middleware.CanIsotp.{Cfg, Isotp, idle}
use nx_c_util.Middleware.CanIsotp.Emit.{ff_pci, sf_capacity}
use nx_c_util.Middleware.CanIsotp.Emit.Frames.{frame_len_valid-HasLength, frame_of-Fits}
use nx_c_util.Middleware.CanIsotp.Process.{frame_len_valid}
use nx_c_util.Middleware.CanIsotp.Receive.{rx_reset, ff_len, too_long, take_first, rx_phys_frame}
use nx_c_util.Middleware.CanIsotp.Reassembly.Step.{Ready, Assembling, Keeps}
use nx_c_util.Middleware.CanIsotp.Reassembly.Last.{Delivers}
use nx_c_util.Middleware.CanIsotp.Reassembly.First.{ff_pci-Announced}
use nx_c_util.Middleware.CanIsotp.Reassembly.Whole.{
  drained, feed_all, consecutive, consecutive-Delivers, Delivers-from,
}

module _ (cfg : Cfg) (id : ℕ) (m : List ℕ) (valid : frame_len_valid cfg.max_frame_len ≡ true) where
  first_frame-Assembling :
      (iso : Isotp)
      → sf_capacity cfg < length m
      → length m < 2 ^ 32
      → Ready iso
      → iso.rx.state ≡ idle
      → too_long iso.cfg (length m) ≡ false
      → let o = rx_phys_frame iso (first_frame cfg id m) in
        Assembling m (first_chunk cfg m) 1 o × Keeps iso o × (first_chunk cfg m < length m)
  first_frame-Assembling iso large w r at fits =
      let v = frame_len_valid-HasLength cfg.max_frame_len valid in
      let least = v.least in
      let cap = sf_capacity_lem cfg (length m) v large in
      let p = ff_pci-Announced (length m) (omega arith) w in
      let short = p.short in
      let long = p.long in
      let frame = first_frame cfg id m in
      let hdr = length (ff_pci (length m)) in
      let c = first_chunk cfg m in
      let dlen = dlc_to_len frame.dlc in
      let (f, size, (pad, bytes)) =
        frame_of-Fits cfg id m (length m) (ff_pci (length m)) valid short (omega arith) in
      let full = f.full (omega arith) in
      let bound = dlc_to_len_bound frame.dlc in
      let pci = ff_pci (length m) in
      let front : get_or frame.bytes 0 0 ≡ get_or pci 0 0 =
        ap (λ l. get_or l 0 0) bytes ∙ front-append pci (take c m ++ pad) (omega arith) in
      let (r', k) = reset-Ready iso r in
      let iso0 = rx_reset iso in
      let e =
        rx_phys_frame-take_first iso frame (ap (λ n. bit_and n 0xF0) front ∙ p.kind)
        ∙ ap (λ o. take_first o frame.bytes dlen) (rx_abort-idle iso at)
        ∙ take_first-start iso0 frame.bytes dlen (length m) hdr
            (ap (λ l. ff_len l dlen) bytes ∙ p.read (take c m ++ pad) dlen (omega arith)) in
      let (b, k') =
        start-Assembling iso0 m frame.bytes dlen hdr c pad r'
          (ap (λ g. too_long g (length m)) k.cfg ∙ fits)
          (ff_have_lem dlen hdr (length m) c short (omega arith) bound (omega arith) (omega arith))
          (ap (drop hdr) bytes ∙ drop-append pci (take c m ++ pad)) (omega arith) in
      subst (λ (o : Isotp). Assembling m c 1 o × Keeps iso o × (c < length m)) (sym e)
        (
          b,
          record { cfg = k'.cfg ∙ k.cfg; link = k'.link ∙ k.link; upper = k'.upper ∙ k.upper },
          omega arith,
        )

-- The frames of a message that is too large for a single one, each taken in turn by a receiver that is idle at
-- first, the driver emptying the link's queue behind each, deliver the message to the upper layer: once, with its
-- length and its bytes, and leave the receiver idle. The receiver accepts that length, its pool gives what is asked
-- for, the link's queue has room for a frame and the upper layer's for a message.
pub segments-Delivers :
    (cfg : Cfg) (id : ℕ) (m : List ℕ) (iso : Isotp)
    → frame_len_valid cfg.max_frame_len ≡ true
    → sf_capacity cfg < length m
    → length m < 2 ^ 32
    → Ready iso
    → iso.rx.state ≡ idle
    → too_long iso.cfg (length m) ≡ false
    → Delivers m iso (feed_all iso (segments cfg id m))
segments-Delivers cfg id m iso valid large w r at fits =
    let (a, k, more) = first_frame-Assembling cfg id m valid iso large w r at fits in
    let first = rx_phys_frame iso (first_frame cfg id m) in
    let rest = consecutive cfg id (length m) m (first_chunk cfg m) 1 in
    Delivers-from cfg id m valid iso (drained first) (feed_all (drained first) rest) k.cfg k.upper (
      consecutive-Delivers cfg id m valid (drained first) (length m) (first_chunk cfg m) 1
        (Ready-Keeps iso first r k)
        (record {
          state = a.state;
          turn = a.turn;
          total = a.total;
          so_far = a.so_far;
          block = a.block;
          acc = a.acc;
          size = a.size;
          same = a.same;
        })
        (omega arith) w more (omega arith))
