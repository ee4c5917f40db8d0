-- ===== src/Middleware/CanIsotp/Reassembly/Whole.antt =====
-- The consecutive frames of a message, one after the other.
use mathlib.Core.Path.{subst}
use nx_c_util.Base.{
  ℕ, zero, suc, ◌+◌, ◌-◌, ◌≤◌, ◌<◌, ◌≡◌, ◌^◌, refl, sym, ap, ◌∙◌, arith, Bool, true, not, ◌||◌,
  List, [], ◌∷◌, ◌++◌, length, min, leb, ltb, if◌then◌else◌, if-true, if-false, Bool-cases, inl,
  inr, u8, bit_and, get_or, take, drop, length-drop,
}
use nx_c_util.Base.Finite.{all_bytes, all_bytes_sound}
use nx_c_util.Middleware.CanBus.{Msg, dlc_to_len}
use nx_c_util.Middleware.CanBus.Lengths.{dlc_to_len_bound}
use nx_c_util.Middleware.CanIsotp.{Cfg, Isotp, sdu_of, indication, physical, n_ok}
use nx_c_util.Middleware.CanIsotp.Emit.{frame_of, cf_pci}
use nx_c_util.Middleware.CanIsotp.Emit.Frames.{
  frame_len_valid-HasLength, frame_of-Fits, length-cf_pci, cf_pci_lem,
}
use nx_c_util.Middleware.CanIsotp.Process.{frame_len_valid}
use nx_c_util.Middleware.CanIsotp.Receive.{rx_phys_frame, append_frame, cf_have}
use nx_c_util.Middleware.CanIsotp.Reassembly.Step.{
  Ready, Assembling, frame_bytes, cf_have_lem, append_frame-Assembling,
}
use nx_c_util.Middleware.CanIsotp.Reassembly.Last.{
  Delivers, append_frame-Delivers, rx_phys_frame-append_frame,
}

-- The driver takes what the link's queue holds after each frame.
abbrev pub drained : Isotp → Isotp
drained iso = record iso { can_tx = record iso.can_tx { items = [] } }

abbrev pub feed_all : Isotp → List Msg → Isotp
feed_all iso [] = iso
feed_all iso (f ∷ fs) = feed_all (drained (rx_phys_frame iso f)) fs

-- The payload of the consecutive frame behind the first `filled` bytes.
abbrev pub chunk_of : Cfg → List ℕ → (filled : ℕ) → ℕ
chunk_of cfg m filled = min (length m - filled) (cfg.max_frame_len - 1)

abbrev pub next_sn : ℕ → ℕ
next_sn sn = u8 (bit_and (sn + 1) 0x0F)

abbrev pub consecutive_frame : Cfg → (id : ℕ) → List ℕ → (filled sn : ℕ) → Msg
consecutive_frame cfg id m filled sn =
    frame_of cfg id (drop filled m) (chunk_of cfg m filled) (cf_pci sn)

-- At most so many consecutive frames, for the message behind its first `filled` bytes.
abbrev pub consecutive : Cfg → (id count : ℕ) → List ℕ → (filled sn : ℕ) → List Msg
consecutive cfg id zero m filled sn = []
consecutive cfg id (suc n) m filled sn =
    let rest = consecutive cfg id n m (filled + chunk_of cfg m filled) (next_sn sn) in
    if leb (length m) filled then [] else consecutive_frame cfg id m filled sn ∷ rest

consecutive-end :
    (cfg : Cfg) (id n : ℕ) (m : List ℕ) (filled sn : ℕ)
    → length m ≤ filled
    → consecutive cfg id n m filled sn ≡ []
consecutive-end cfg id zero m filled sn h = refl
consecutive-end cfg id (suc n) m filled sn h =
    if-true {b = leb (length m) filled} _ _ (ground arith)

sn_test : ℕ → Bool
sn_test sn = not (ltb sn 16) || ltb (next_sn sn) 16

sn_check : all_bytes sn_test ≡ true
unfolding all_bytes sn_test
sn_check = refl

sn_test_lem : (sn : ℕ) → sn < 16 → sn_test sn ≡ true → next_sn sn < 16
unfolding sn_test
sn_test_lem sn h t = ground arith

next_sn_small : (sn : ℕ) → sn < 16 → next_sn sn < 16
next_sn_small sn h = sn_test_lem sn h (all_bytes_sound sn_test sn sn_check (omega arith))

module _ (cfg : Cfg) (id : ℕ) (m : List ℕ) (valid : frame_len_valid cfg.max_frame_len ≡ true) where
  -- What the frame carries, as the receiver reads it.
  record Carries (iso : Isotp) (filled sn : ℕ) : Type 0 where
    pub pad : List ℕ
    pub x : ℕ
    pub bytes :
        (consecutive_frame cfg id m filled sn).bytes
        ≡ frame_bytes iso m filled sn
            (chunk_of cfg m filled)
            (dlc_to_len (consecutive_frame cfg id m filled sn).dlc)
            x
            pad
    pub kind : bit_and x 0xF0 ≡ 0x20
    pub turn : bit_and x 0x0F ≡ sn
    pub have :
        cf_have iso.rx (dlc_to_len (consecutive_frame cfg id m filled sn).dlc)
        ≡ chunk_of cfg m filled

  cf_pci_single : (sn : ℕ) → cf_pci sn ≡ get_or (cf_pci sn) 0 0 ∷ []
  unfolding cf_pci
  cf_pci_single sn = refl

  frame-Carries :
      (iso : Isotp) (filled sn : ℕ)
      → iso.rx.filled ≡ filled
      → iso.rx.total ≡ length m
      → filled < length m
      → length m < 2 ^ 32
      → sn < 16
      → Carries iso filled sn
  frame-Carries iso filled sn f t h w s =
      let c = chunk_of cfg m filled in
      let v = frame_len_valid-HasLength cfg.max_frame_len valid in
      let least = v.least in
      let one = length-cf_pci sn in
      let (fits, size, (pad, bytes)) =
        frame_of-Fits cfg id (drop filled m) c (cf_pci sn) valid (omega arith)
          (omega (arith, length-drop filled m)) in
      let same : min c (cfg.max_frame_len - length (cf_pci sn)) ≡ c = omega arith in
      let dlc = (consecutive_frame cfg id m filled sn).dlc in
      let b = dlc_to_len_bound dlc in
      let holds = fits.holds in
      let full = fits.full in
      record {
        pad = pad;
        x = get_or (cf_pci sn) 0 0;
        bytes =
            bytes
            ∙ ap (λ n. cf_pci sn ++ (take n (drop filled m) ++ pad)) same
            ∙ ap (λ l. l ++ (take c (drop filled m) ++ pad)) (cf_pci_single sn);
        kind = (cf_pci_lem sn s).0;
        turn = (cf_pci_lem sn s).1;
        have =
            cf_have_lem iso.rx (dlc_to_len dlc) cfg.max_frame_len c (omega arith) (omega arith)
              least b (omega arith) (omega arith) (λ e. full (omega arith));
      }

  -- The frame is appended.
  frame-append :
      (iso : Isotp) (filled sn : ℕ) (a : Assembling m filled sn iso) (k : Carries iso filled sn)
      → let frame = consecutive_frame cfg id m filled sn in
        rx_phys_frame iso frame
        ≡ append_frame iso
            (frame_bytes iso m filled sn
              (chunk_of cfg m filled)
              (dlc_to_len (consecutive_frame cfg id m filled sn).dlc)
              k.x
              k.pad)
            (dlc_to_len frame.dlc)
  frame-append iso filled sn a k =
      let frame = consecutive_frame cfg id m filled sn in
      let first : get_or frame.bytes 0 0 ≡ k.x = ap (λ l. get_or l 0 0) k.bytes in
      rx_phys_frame-append_frame iso frame sn (ap (λ n. bit_and n 0xF0) first ∙ k.kind)
        (ap (λ n. bit_and n 0x0F) first ∙ k.turn) a.state a.turn
      ∙ ap (λ l. append_frame iso l (dlc_to_len frame.dlc)) k.bytes

  -- One frame, and the driver behind it, that does not complete the message.
  step-Assembling :
      (iso : Isotp) (filled sn : ℕ)
      → Ready iso
      → Assembling m filled sn iso
      → sn < 16
      → length m < 2 ^ 32
      → filled + chunk_of cfg m filled < length m
      → let iso' = drained (rx_phys_frame iso (consecutive_frame cfg id m filled sn)) in
        Ready iso'
        × Assembling m (filled + chunk_of cfg m filled) (next_sn sn) iso'
        × (iso'.cfg ≡ iso.cfg)
        × (iso'.sdu_tx ≡ iso.sdu_tx)
  step-Assembling iso filled sn r a s w more =
      let k = frame-Carries iso filled sn a.so_far a.total (omega arith) w s in
      let c = chunk_of cfg m filled in
      let dlen = dlc_to_len (consecutive_frame cfg id m filled sn).dlc in
      let (b, keeps) = append_frame-Assembling iso m filled sn c dlen k.x k.pad r a k.have more w in
      let e = frame-append iso filled sn a k in
      subst
        (λ (o : Isotp).
          Ready (drained o)
          × Assembling m (filled + c) (next_sn sn) (drained o)
          × ((drained o).cfg ≡ iso.cfg)
          × ((drained o).sdu_tx ≡ iso.sdu_tx))
        (sym e)
        (
          record {
            pool = subst (λ (g : Cfg). (n size : ℕ) → g.pool n size ≡ true) (sym keeps.cfg) r.pool;
            link = refl;
            room = subst (λ n. 1 ≤ n) (sym keeps.link) r.room;
            upper = subst (λ q. length q.items < q.capacity) (sym keeps.upper) r.upper;
          },
          record {
            state = b.state;
            turn = b.turn;
            total = b.total;
            so_far = b.so_far;
            block = b.block;
            acc = b.acc;
            size = b.size;
            same = b.same;
          },
          keeps.cfg,
          keeps.upper,
        )

  last-Delivers :
      (iso : Isotp) (filled sn : ℕ)
      → Ready iso
      → Assembling m filled sn iso
      → sn < 16
      → length m < 2 ^ 32
      → filled < length m
      → length m ≤ filled + chunk_of cfg m filled
      → Delivers m iso (drained (rx_phys_frame iso (consecutive_frame cfg id m filled sn)))
  last-Delivers iso filled sn r a s w h last =
      let k = frame-Carries iso filled sn a.so_far a.total h w s in
      let c = chunk_of cfg m filled in
      let dlen = dlc_to_len (consecutive_frame cfg id m filled sn).dlc in
      let d = append_frame-Delivers iso m filled sn c dlen k.x k.pad r a k.have (omega arith) w in
      subst (λ (o : Isotp). Delivers m iso (drained o)) (sym (frame-append iso filled sn a k))
        (record { over = d.over; upper = d.upper })

  pub Delivers-from :
      (iso iso' o : Isotp)
      → iso'.cfg ≡ iso.cfg
      → iso'.sdu_tx ≡ iso.sdu_tx
      → Delivers m iso' o
      → Delivers m iso o
  Delivers-from iso iso' o c u d = record {
    over = d.over;
    upper =
        d.upper
        ∙ ap (λ q. q.items ++ sdu_of iso' indication physical n_ok m (length m) ∷ []) u
        ∙ ap
            (λ (c : Cfg).
              iso.sdu_tx.items
              ++ record {
                len = length m;
                link = c.link;
                kind = indication;
                ta_type = physical;
                result = n_ok;
                bytes = m;
              }
                ∷ [])
            c;
  }

  -- The frames of what is left, each followed by the driver, deliver the message.
  pub consecutive-Delivers :
      (iso : Isotp) (n filled sn : ℕ)
      → Ready iso
      → Assembling m filled sn iso
      → sn < 16
      → length m < 2 ^ 32
      → filled < length m
      → length m ≤ filled + n
      → Delivers m iso (feed_all iso (consecutive cfg id n m filled sn))
  consecutive-Delivers iso zero filled sn r a s w h fuel = absurd (omega arith)
  consecutive-Delivers iso (suc n) filled sn r a s w h fuel =
      let c = chunk_of cfg m filled in
      let v = frame_len_valid-HasLength cfg.max_frame_len valid in
      let least = v.least in
      let rest = consecutive cfg id n m (filled + c) (next_sn sn) in
      let frame = consecutive_frame cfg id m filled sn in
      let iso' = drained (rx_phys_frame iso frame) in
      let starts : (if leb (length m) filled then [] else frame ∷ rest) ≡ frame ∷ rest =
        if-false {b = leb (length m) filled} _ _ (ground arith) in
      subst (λ fs. Delivers m iso (feed_all iso fs)) (sym starts)
        (elim (Bool-cases (leb (length m) (filled + c))) [
          | inl last ↦
              subst (λ fs. Delivers m iso (feed_all iso' fs))
                (sym (consecutive-end cfg id n m (filled + c) (next_sn sn) (ground arith)))
                (last-Delivers iso filled sn r a s w h (ground arith))
          | inr more ↦
              let (r', a', cs, us) = step-Assembling iso filled sn r a s w (ground arith) in
              Delivers-from iso iso' (feed_all iso' rest) cs us (
                consecutive-Delivers iso' n (filled + c) (next_sn sn) r' a' (next_sn_small sn s) w
                  (ground arith) (omega arith))
        ])
