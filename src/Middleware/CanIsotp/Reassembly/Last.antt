-- ===== src/Middleware/CanIsotp/Reassembly/Last.antt =====
-- The frame that completes a message, and how a consecutive frame comes to its branch.
use mathlib.Core.Path.{subst}
use nx_c_util.Base.{
  ℕ, ◌+◌, ◌<◌, ◌≡◌, ◌^◌, refl, sym, ap, ◌∙◌, arith, true, false, Option, none, some, List, [], ◌∷◌,
  ◌++◌, length, leb, ◌==◌, if-true, bit_and, get_or, take-all,
}
use nx_c_util.Middleware.CanBus.{Msg, dlc_to_len}
use nx_c_util.Middleware.CanIsotp.{
  idle, assem, is_assem, Sdu, sdu_of, physical, indication, n_ok, Isotp, publish, to_upper,
}
use nx_c_util.Middleware.CanIsotp.Receive.{
  rx_reset, rx_finish, cf_have, advanced, append_frame, take_consecutive, rx_phys_frame,
}
use nx_c_util.Middleware.CanIsotp.Reassembly.Step.{
  Ready, Assembling, frame_bytes, advanced-Assembling, advanced-Keeps,
}

-- The message is what the upper layer has more, and the reception is over.
pub record Delivers (m : List ℕ) (iso iso' : Isotp) : Type 0 where
  pub over : iso'.rx.state ≡ idle
  pub upper :
      iso'.sdu_tx.items ≡ iso.sdu_tx.items ++ sdu_of iso indication physical n_ok m (length m) ∷ []

rx_finish-to_upper :
    (iso : Isotp) (s : Sdu) → iso.rx.acc ≡ some s → rx_finish iso ≡ to_upper (rx_reset iso) s
unfolding rx_finish
rx_finish-to_upper iso s e =
    ap (λ (o : Option Sdu). elim o [ none ↦ rx_reset iso | some m ↦ to_upper (rx_reset iso) m ]) e

to_upper-room :
    (iso : Isotp) (s : Sdu)
    → length iso.sdu_tx.items < iso.sdu_tx.capacity
    → to_upper iso s
      ≡ record iso { sdu_tx = record iso.sdu_tx { items = iso.sdu_tx.items ++ s ∷ [] } }
unfolding to_upper publish
to_upper-room iso s h =
    let full : leb iso.sdu_tx.capacity (length iso.sdu_tx.items) ≡ false = ground arith in
    rw (full, to_upper, publish) refl

rx_finish-Delivers :
    (iso : Isotp) (m : List ℕ)
    → length iso.sdu_tx.items < iso.sdu_tx.capacity
    → iso.rx.acc ≡ some (sdu_of iso indication physical n_ok m (length m))
    → Delivers m iso (rx_finish iso)
unfolding rx_reset
rx_finish-Delivers iso m h e =
    let s : Sdu = sdu_of iso indication physical n_ok m (length m) in
    subst (λ o. Delivers m iso o)
      (sym (rx_finish-to_upper iso s e ∙ to_upper-room (rx_reset iso) s h))
      (record { over = refl; upper = refl })

complete :
    (iso : Isotp) (d : List ℕ) (dlen : ℕ)
    → (advanced iso d dlen).rx.total ≡ (advanced iso d dlen).rx.filled
    → append_frame iso d dlen ≡ rx_finish (advanced iso d dlen)
unfolding append_frame
complete iso d dlen e =
    if-true {b = leb (advanced iso d dlen).rx.total (advanced iso d dlen).rx.filled} _ _
      (ground arith)

-- Where the frame completes the message, it is delivered.
pub append_frame-Delivers :
    (iso : Isotp) (m : List ℕ) (filled sn c dlen x : ℕ) (pad : List ℕ)
    → Ready iso
    → Assembling m filled sn iso
    → cf_have iso.rx dlen ≡ c
    → filled + c ≡ length m
    → length m < 2 ^ 32
    → Delivers m iso (append_frame iso (frame_bytes iso m filled sn c dlen x pad) dlen)
append_frame-Delivers iso m filled sn c dlen x pad r a e h w =
    let d = frame_bytes iso m filled sn c dlen x pad in
    let after = advanced iso d dlen in
    let b = advanced-Assembling iso m filled sn c dlen x pad a e (omega arith) w in
    let k = advanced-Keeps iso m filled sn c dlen x pad in
    let whole : b.block ≡ m =
      sym (take-all (filled + c) b.block (let s = b.size in omega arith))
      ∙ b.same
      ∙ take-all (filled + c) m (omega arith) in
    let done =
      rx_finish-Delivers after m (subst (λ q. length q.items < q.capacity) (sym k.upper) r.upper)
        (b.acc ∙ ap (λ l. some (sdu_of after indication physical n_ok l (length m))) whole) in
    subst (λ o. Delivers m iso o) (sym (complete iso d dlen (b.total ∙ sym h ∙ sym b.so_far)))
      (record {
        over = done.over;
        upper =
            done.upper
            ∙ ap (λ q. q.items ++ sdu_of after indication physical n_ok m (length m) ∷ []) k.upper
            ∙ ap
                (λ c.
                  iso.sdu_tx.items
                  ++ record {
                    len = length m;
                    link = c.link;
                    kind = indication;
                    ta_type = physical;
                    result = n_ok;
                    bytes = m;
                  }
                    ∷ [])
                k.cfg;
      })

-- A consecutive frame in its turn is appended.
pub rx_phys_frame-append_frame :
    (iso : Isotp) (frame : Msg) (sn : ℕ)
    → bit_and (get_or frame.bytes 0 0) 0xF0 ≡ 0x20
    → bit_and (get_or frame.bytes 0 0) 0x0F ≡ sn
    → iso.rx.state ≡ assem
    → iso.rx.sn ≡ sn
    → rx_phys_frame iso frame ≡ append_frame iso frame.bytes (dlc_to_len frame.dlc)
unfolding rx_phys_frame take_consecutive
rx_phys_frame-append_frame iso frame sn kind turn state at =
    let active : is_assem iso.rx.state ≡ true = ap is_assem state in
    let same : (bit_and (get_or frame.bytes 0 0) 0x0F == iso.rx.sn) ≡ true = ground arith in
    rw kind (rw active (rw same refl))
