-- ===== src/Middleware/CanIsotp/Reassembly/Step.antt =====
-- One consecutive frame in its turn.
use mathlib.Core.Path.{subst}
use nx_c_util.Base.{
  ℕ, ◌+◌, ◌-◌, ◌≤◌, ◌<◌, ◌≡◌, ◌^◌, refl, sym, ap, ap₂, ◌∙◌, arith, true, false, Option, some, List,
  [], ◌∷◌, ◌++◌, length, min, leb, ◌==◌, Bool-cases, inl, inr, if-false, ◌+32◌, u8, bit_and, take,
  drop, length-drop, length-copy_at, copy_at,
}
use nx_c_util.Middleware.CanBus.{Msg, dlc_to_len}
use nx_c_util.Middleware.CanIsotp.{
  Cfg, Rx, assem, Sdu, sdu_of, physical, indication, n_ok, Isotp, allocated, publish,
}
use nx_c_util.Middleware.CanIsotp.Emit.{
  frame_of, to_link, emit_frame, emit_fc, continue_rx, emit_cts,
}
use nx_c_util.Middleware.CanIsotp.Receive.{cf_have, stored, advanced, count_block, append_frame}
use nx_c_util.Middleware.CanIsotp.Reassembly.Store.{take-copy_at, take-append}

-- The pool gives what is asked for, the link has room for a frame, the upper layer for a message.
pub record Ready (iso : Isotp) : Type 0 where
  pub pool : (count size : ℕ) → iso.cfg.pool count size ≡ true
  pub link : iso.can_tx.items ≡ []
  pub room : 1 ≤ iso.can_tx.capacity
  pub upper : length iso.sdu_tx.items < iso.sdu_tx.capacity

-- The first `filled` bytes of the message are in the block, and the frame `sn` is next.
pub record Assembling (m : List ℕ) (filled sn : ℕ) (iso : Isotp) : Type 0 where
  pub state : iso.rx.state ≡ assem
  pub turn : iso.rx.sn ≡ sn
  pub total : iso.rx.total ≡ length m
  pub so_far : iso.rx.filled ≡ filled
  pub block : List ℕ
  pub acc : iso.rx.acc ≡ some (sdu_of iso indication physical n_ok block (length m))
  pub size : length block ≡ length m
  pub same : take filled block ≡ take filled m

-- Nothing but the reception, the link's frames and the counts differ.
pub record Keeps (iso iso' : Isotp) : Type 0 where
  pub cfg : iso'.cfg ≡ iso.cfg
  pub link : iso'.can_tx.capacity ≡ iso.can_tx.capacity
  pub upper : iso'.sdu_tx ≡ iso.sdu_tx

emit_frame-taken :
    (iso : Isotp) (id : ℕ) (src : List ℕ) (plen : ℕ) (pci : List ℕ)
    → Ready iso
    → emit_frame iso id src plen pci ≡ (
      true,
      record (allocated iso) {
        can_tx = record iso.can_tx {
          items = iso.can_tx.items ++ frame_of iso.cfg id src plen pci ∷ [];
        };
      },
    )
unfolding emit_frame to_link publish
emit_frame-taken iso id src plen pci r =
    let p = r.pool iso.allocs (16 + dlc_to_len (frame_of iso.cfg id src plen pci).dlc) in
    let e = r.link in
    let c = r.room in
    let full : leb iso.can_tx.capacity (length iso.can_tx.items) ≡ false =
      ap (λ (l : List Msg). leb iso.can_tx.capacity (length l)) e ∙ ground arith in
    rw p (rw (full, to_link, publish) refl)

pub emit_cts-continues :
    (iso : Isotp)
    → Ready iso
    → (((emit_cts iso).rx.state ≡ assem)
        × ((emit_cts iso).rx.sn ≡ iso.rx.sn)
        × ((emit_cts iso).rx.total ≡ iso.rx.total)
        × ((emit_cts iso).rx.filled ≡ iso.rx.filled)
        × ((emit_cts iso).rx.acc ≡ iso.rx.acc))
      × Keeps iso (emit_cts iso)
unfolding emit_cts emit_fc continue_rx
emit_cts-continues iso r =
    let e =
      emit_frame-taken iso iso.cfg.phys_tx_id [] 0
        (0x30 ∷ iso.cfg.rx_block_size ∷ iso.cfg.rx_stmin ∷ []) r in
    rw e ((refl, refl, refl, refl, refl), record { cfg = refl; link = refl; upper = refl })

count_block-Keeps :
    (iso : Isotp)
    → Ready iso
    → iso.rx.state ≡ assem
    → (((count_block iso).rx.state ≡ assem)
        × ((count_block iso).rx.sn ≡ iso.rx.sn)
        × ((count_block iso).rx.total ≡ iso.rx.total)
        × ((count_block iso).rx.filled ≡ iso.rx.filled)
        × ((count_block iso).rx.acc ≡ iso.rx.acc))
      × Keeps iso (count_block iso)
unfolding count_block
count_block-Keeps iso r e = elim (Bool-cases (iso.rx.block_left == 0)) [
  | inl none_left ↦
      rw none_left ((e, refl, refl, refl, refl), record { cfg = refl; link = refl; upper = refl })
  | inr some_left ↦
      let counted : Isotp = record iso {
        rx = record iso.rx { block_left = iso.rx.block_left - 1 };
      } in
      let ready : Ready counted = record {
        pool = r.pool;
        link = r.link;
        room = r.room;
        upper = r.upper;
      } in
      let (fields, keeps) = emit_cts-continues counted ready in
      elim (Bool-cases (iso.rx.block_left - 1 == 0)) [
        | inl last ↦
            rw some_left
              (rw last (fields, record { cfg = keeps.cfg; link = keeps.link; upper = keeps.upper }))
        | inr more ↦ rw some_left (
            rw more ((e, refl, refl, refl, refl), record { cfg = refl; link = refl; upper = refl }))
      ]
]

pub cf_have_lem :
    (rx : Rx) (dlen max c : ℕ)
    → rx.filled < rx.total
    → rx.total < 2 ^ 32
    → 8 ≤ max
    → dlen ≤ 64
    → c ≡ min (rx.total - rx.filled) (max - 1)
    → 1 + c ≤ dlen
    → (1 + c ≡ max → dlen ≡ max)
    → cf_have rx dlen ≡ c
unfolding cf_have
cf_have_lem rx dlen max c h h' l d e holds full = ground arith

module _ (iso : Isotp) (m : List ℕ) (filled sn c dlen x : ℕ) (pad : List ℕ) where
  abbrev pub frame_bytes : List ℕ
  frame_bytes = x ∷ (take c (drop filled m) ++ pad)

  payload-taken : filled + c ≤ length m → take c (drop 1 frame_bytes) ≡ take c (drop filled m)
  payload-taken h = take-append c (drop filled m) pad (omega (arith, length-drop filled m))

  pub advanced-Assembling :
      Assembling m filled sn iso
      → cf_have iso.rx dlen ≡ c
      → filled + c ≤ length m
      → length m < 2 ^ 32
      → Assembling m (filled + c) (u8 (bit_and (sn + 1) 0x0F)) (advanced iso frame_bytes dlen)
  unfolding advanced stored
  advanced-Assembling a e h w =
      let f = a.so_far in
      record {
        state = a.state;
        turn = ap (λ n. u8 (bit_and (n + 1) 0x0F)) a.turn;
        total = a.total;
        so_far = ap₂ (λ p q. p +32 q) a.so_far e ∙ sum;
        block = copy_at a.block filled (take c (drop filled m));
        acc =
            ap₂
              (λ (s : Option Sdu) (k : ℕ).
                stored s k (take (cf_have iso.rx dlen) (drop 1 frame_bytes)))
              a.acc a.so_far
            ∙ ap
                (λ (l : List ℕ).
                  some (sdu_of iso indication physical n_ok (copy_at a.block filled l) (length m)))
                (ap (λ n. take n (drop 1 frame_bytes)) e ∙ payload-taken h);
        size = length-copy_at a.block filled (take c (drop filled m)) ∙ a.size;
        same =
            let s = a.size in
            take-copy_at filled c (filled + c) a.block m refl a.same (omega arith) h;
      }
    where
      sum : filled +32 c ≡ filled + c
      sum = omega arith

  pub advanced-Keeps : Keeps iso (advanced iso frame_bytes dlen)
  unfolding advanced
  advanced-Keeps = record { cfg = refl; link = refl; upper = refl }

  advanced-Ready : Ready iso → Ready (advanced iso frame_bytes dlen)
  unfolding advanced
  advanced-Ready r = record { pool = r.pool; link = r.link; room = r.room; upper = r.upper }

  incomplete :
      Assembling m (filled + c) (u8 (bit_and (sn + 1) 0x0F)) (advanced iso frame_bytes dlen)
      → filled + c < length m
      → append_frame iso frame_bytes dlen ≡ count_block (advanced iso frame_bytes dlen)
  unfolding append_frame
  incomplete b h =
      let t = b.total in
      let f = b.so_far in
      if-false
        {b = leb (advanced iso frame_bytes dlen).rx.total (advanced iso frame_bytes dlen).rx.filled}
        _ _ (ground arith)

  -- Where the message is not complete, the next frame is awaited.
  pub append_frame-Assembling :
      Ready iso
      → Assembling m filled sn iso
      → cf_have iso.rx dlen ≡ c
      → filled + c < length m
      → length m < 2 ^ 32
      → Assembling m (filled + c) (u8 (bit_and (sn + 1) 0x0F)) (append_frame iso frame_bytes dlen)
        × Keeps iso (append_frame iso frame_bytes dlen)
  append_frame-Assembling r a e h w =
      let b = advanced-Assembling a e (omega arith) w in
      let after = advanced iso frame_bytes dlen in
      let (fields, keeps) = count_block-Keeps after (advanced-Ready r) b.state in
      subst (λ (o : Isotp). Assembling m (filled + c) (u8 (bit_and (sn + 1) 0x0F)) o × Keeps iso o)
        (sym (incomplete b h))
        (
          record {
            state = fields.0;
            turn = fields.1 ∙ b.turn;
            total = fields.2 ∙ b.total;
            so_far = fields.3 ∙ b.so_far;
            block = b.block;
            acc =
                fields.4
                ∙ b.acc
                ∙ ap
                    (λ (k : Cfg). some (record {
                      len = length m;
                      link = k.link;
                      kind = indication;
                      ta_type = physical;
                      result = n_ok;
                      bytes = b.block;
                    }))
                    (sym keeps.cfg);
            size = b.size;
            same = b.same;
          },
          record {
            cfg = keeps.cfg ∙ advanced-Keeps.cfg;
            link = keeps.link ∙ advanced-Keeps.link;
            upper = keeps.upper ∙ advanced-Keeps.upper;
          },
        )
