-- ===== src/Middleware/CanIsotp/Reassembly/Consecutive.antt =====
-- The consecutive frames of a message, one after the other.
use mathlib.Core.Path.{subst}
use nx_c_util.Base.{
  ℕ, ◌+◌, ◌-◌, ◌≤◌, ◌<◌, ◌≡◌, refl, sym, ap, ap₂, ◌∙◌, arith, true, false, not, Option, none, some,
  List, [], ◌∷◌, ◌++◌, length, min, leb, if-true, if-false, bit_and, get_or, take, drop, replicate,
  copy_at, length-copy_at,
}
use nx_c_util.Middleware.CanBus.{Msg, dlc_to_len}
use nx_c_util.Middleware.CanIsotp.{
  Cfg, Isotp, idle, is_idle, n_unexp_pdu, alloc, allocated, sdu_of, indication, physical, n_ok,
}
use nx_c_util.Middleware.CanIsotp.Emit.{frame_of, ff_pci, emit_cts, sf_capacity}
use nx_c_util.Middleware.CanIsotp.Emit.Frames.{HasLength, length-replicate}
use nx_c_util.Middleware.CanIsotp.Receive.{
  rx_reset, rx_abort, ff_len, ff_have, too_long, started, start, take_first, rx_phys_frame,
}
use nx_c_util.Middleware.CanIsotp.Reassembly.Store.{take-copy_at, take-append}
use nx_c_util.Middleware.CanIsotp.Reassembly.Step.{Ready, Assembling, Keeps, emit_cts-continues}
use nx_c_util.Middleware.CanIsotp.Reassembly.Whole.{drained, consecutive}

-- The payload of the first frame.
abbrev pub first_chunk : Cfg → List ℕ → ℕ
first_chunk cfg m = min (length m) (cfg.max_frame_len - length (ff_pci (length m)))

abbrev pub first_frame : Cfg → (id : ℕ) → List ℕ → Msg
first_frame cfg id m = frame_of cfg id m (length m) (ff_pci (length m))

-- A message in its frames.
abbrev pub segments : Cfg → (id : ℕ) → List ℕ → List Msg
segments cfg id m = first_frame cfg id m ∷ consecutive cfg id (length m) m (first_chunk cfg m) 1

pub rx_abort-idle : (iso : Isotp) → iso.rx.state ≡ idle → rx_abort iso n_unexp_pdu ≡ rx_reset iso
unfolding rx_abort
rx_abort-idle iso e = if-true {b = is_idle iso.rx.state} _ _ (ap is_idle e)

pub take_first-start :
    (iso : Isotp) (d : List ℕ) (dlen total hdr : ℕ)
    → ff_len d dlen ≡ some (total, hdr)
    → take_first iso d dlen ≡ start iso d dlen total hdr
unfolding take_first
take_first-start iso d dlen total hdr e =
    ap (λ (o : Option (ℕ × ℕ)). elim o [ none ↦ iso | some p ↦ start iso d dlen p.0 p.1 ]) e

start-emit_cts :
    (iso : Isotp) (d : List ℕ) (dlen total hdr : ℕ)
    → too_long iso.cfg total ≡ false
    → alloc iso (8 + total) ≡ true
    → (started (allocated iso) d dlen total hdr).rx.filled < total
    → start iso d dlen total hdr ≡ emit_cts (started (allocated iso) d dlen total hdr)
unfolding start
start-emit_cts iso d dlen total hdr fits ok more =
    if-false {b = too_long iso.cfg total} _ _ fits
    ∙ if-false {b = not (alloc iso (8 + total))} _ _ (ap not ok)
    ∙ if-false {b = leb total (started (allocated iso) d dlen total hdr).rx.filled} _ _
        (ground arith)

pub rx_phys_frame-take_first :
    (iso : Isotp) (frame : Msg)
    → bit_and (get_or frame.bytes 0 0) 0xF0 ≡ 0x10
    → rx_phys_frame iso frame
      ≡ take_first (rx_abort iso n_unexp_pdu) frame.bytes (dlc_to_len frame.dlc)
unfolding rx_phys_frame
rx_phys_frame-take_first iso frame kind = rw kind refl

pub drop-append : (xs ys : List ℕ) → drop (length xs) (xs ++ ys) ≡ ys
drop-append [] ys = refl
drop-append (x ∷ xs) ys = drop-append xs ys

pub front-append : (xs ys : List ℕ) → 1 ≤ length xs → get_or (xs ++ ys) 0 0 ≡ get_or xs 0 0
front-append [] ys h = absurd (omega arith)
front-append (x ∷ xs) ys h = refl

-- The reception that the first frame starts.
started-Assembling :
    (iso : Isotp) (m d : List ℕ) (dlen hdr c : ℕ) (pad : List ℕ)
    → ff_have dlen hdr (length m) ≡ c
    → drop hdr d ≡ take c m ++ pad
    → c ≤ length m
    → Assembling m c 1 (started iso d dlen (length m) hdr)
      × Keeps iso (started iso d dlen (length m) hdr)
unfolding started
started-Assembling iso m d dlen hdr c pad have rest h =
    let bytes : take (ff_have dlen hdr (length m)) (drop hdr d) ≡ take c m =
      ap₂ take have rest ∙ take-append c m pad h in
    let size = length-replicate (length m) 0 in
    (
      record {
        state = refl;
        turn = refl;
        total = refl;
        so_far = have;
        block = copy_at (replicate (length m) 0) 0 (take c m);
        acc =
            ap
              (λ (l : List ℕ). some (
                sdu_of iso indication physical n_ok (copy_at (replicate (length m) 0) 0 l)
                  (length m)))
              bytes;
        size = length-copy_at (replicate (length m) 0) 0 (take c m) ∙ size;
        same = take-copy_at 0 c c (replicate (length m) 0) m (omega arith) refl (omega arith) h;
      },
      record { cfg = refl; link = refl; upper = refl },
    )

pub ff_have_lem :
    (dlen hdr total c : ℕ)
    → hdr ≤ 6
    → 8 ≤ dlen
    → dlen ≤ 64
    → c ≡ dlen - hdr
    → c ≤ total
    → ff_have dlen hdr total ≡ c
unfolding ff_have
ff_have_lem dlen hdr total c h l l' e more = ground arith

pub sf_capacity_lem :
    (cfg : Cfg) (n : ℕ)
    → HasLength cfg.max_frame_len
    → sf_capacity cfg < n
    → cfg.max_frame_len - 1 ≤ n
unfolding sf_capacity
sf_capacity_lem cfg n v h = let l = v.least in let m = v.most in ground arith

pub reset-Ready : (iso : Isotp) → Ready iso → Ready (rx_reset iso) × Keeps iso (rx_reset iso)
unfolding rx_reset
reset-Ready iso r = (
  record { pool = r.pool; link = r.link; room = r.room; upper = r.upper },
  record { cfg = refl; link = refl; upper = refl },
)

pub Ready-Keeps : (iso o : Isotp) → Ready iso → Keeps iso o → Ready (drained o)
Ready-Keeps iso o r k = record {
  pool = subst (λ (g : Cfg). (n size : ℕ) → g.pool n size ≡ true) (sym k.cfg) r.pool;
  link = refl;
  room = subst (λ n. 1 ≤ n) (sym k.link) r.room;
  upper = subst (λ q. length q.items < q.capacity) (sym k.upper) r.upper;
}

started-Ready :
    (iso : Isotp) (d : List ℕ) (dlen total hdr : ℕ)
    → Ready iso
    → Ready (started iso d dlen total hdr)
unfolding started
started-Ready iso d dlen total hdr r = record {
  pool = r.pool;
  link = r.link;
  room = r.room;
  upper = r.upper;
}

-- The first frame of a message that is accepted.
pub start-Assembling :
    (iso : Isotp) (m d : List ℕ) (dlen hdr c : ℕ) (pad : List ℕ)
    → Ready iso
    → too_long iso.cfg (length m) ≡ false
    → ff_have dlen hdr (length m) ≡ c
    → drop hdr d ≡ take c m ++ pad
    → c < length m
    → Assembling m c 1 (start iso d dlen (length m) hdr)
      × Keeps iso (start iso d dlen (length m) hdr)
start-Assembling iso m d dlen hdr c pad r fits have rest h =
    let ready : Ready (allocated iso) = record {
      pool = r.pool;
      link = r.link;
      room = r.room;
      upper = r.upper;
    } in
    let after = started (allocated iso) d dlen (length m) hdr in
    let (b, k) = started-Assembling (allocated iso) m d dlen hdr c pad have rest (omega arith) in
    let (fields, keeps) =
      emit_cts-continues after (started-Ready (allocated iso) d dlen (length m) hdr ready) in
    let f = b.so_far in
    subst (λ (o : Isotp). Assembling m c 1 o × Keeps iso o)
      (sym (
        start-emit_cts iso d dlen (length m) hdr fits (r.pool iso.allocs (8 + length m))
          (omega arith)))
      (
        record {
          state = fields.0;
          turn = fields.1 ∙ b.turn;
          total = fields.2 ∙ b.total;
          so_far = fields.3 ∙ b.so_far;
          block = b.block;
          acc =
              fields.4
              ∙ b.acc
              ∙ ap
                  (λ (k : Cfg). some (record {
                    len = length m;
                    link = k.link;
                    kind = indication;
                    ta_type = physical;
                    result = n_ok;
                    bytes = b.block;
                  }))
                  (sym keeps.cfg);
          size = b.size;
          same = b.same;
        },
        record {
          cfg = keeps.cfg ∙ k.cfg;
          link = keeps.link ∙ k.link;
          upper = keeps.upper ∙ k.upper;
        },
      )
