-- ===== src/Middleware/CanIsotp/Send/Waits.antt =====
-- A peer that only asks to wait.
use nx_c_util.Base.{
  ℕ, suc, ◌+◌, ◌≤◌, ◌<◌, ◌≡◌, refl, sym, ap, ◌∙◌, arith, Bool, true, false, not, ◌&&◌, ◌||◌, Option,
  none, some, List, [], ◌∷◌, length, leb, ltb, ◌==◌, if-true, Bool-cases, Option-cases, inl, inr,
  u8, bit_and, get_or,
}
use mathlib.Core.Path.{subst}
use nx_c_util.Middleware.CanBus.{Msg, dlc_to_len}
use nx_c_util.Middleware.CanIsotp.{
  SduKind, Tx, physical, sdu_of, allocated, Isotp, at_rest, wait_fc, Sdu, confirmation, TpResult,
  n_wft_ovrn, report, to_upper, publish,
}
use nx_c_util.Middleware.CanIsotp.Send.{is_wait_fc, tx_abort, hold_on, tx_apply_fc}

-- A flow control frame that asks to wait.
abbrev pub is_wait : Msg → Bool
is_wait f = (bit_and (get_or f.bytes 0 0) 0x0F == 0x01) && leb 3 (dlc_to_len f.dlc)

abbrev pub all_wait : List Msg → Bool
all_wait [] = true
all_wait (f ∷ fs) = is_wait f && all_wait fs

abbrev pub apply_fcs : Isotp → List Msg → Isotp
apply_fcs iso [] = iso
apply_fcs iso (f ∷ fs) = apply_fcs (tx_apply_fc iso f) fs

to_upper-tx : (iso : Isotp) (s : Sdu) → (to_upper iso s).tx ≡ iso.tx
unfolding to_upper publish
to_upper-tx iso s = ground arith

report-tx :
    (iso : Isotp) (kind : SduKind) (result : TpResult) → (report iso kind result).tx ≡ iso.tx
unfolding report
report-tx iso kind result =
    let e = to_upper-tx (allocated iso) (sdu_of (allocated iso) kind physical result [] 0) in
    ground arith

abbrev given_up : Isotp → Isotp
given_up iso = record iso { tx = record iso.tx { sdu = none; state = at_rest; wft = 0 } }

tx_abort-given_up :
    (iso : Isotp) (result : TpResult) (o : Option Sdu)
    → iso.tx.sdu ≡ o
    → tx_abort iso result
      ≡ elim o [ none ↦ given_up iso | some sdu ↦ report (given_up iso) confirmation result ]
unfolding tx_abort
tx_abort-given_up iso result o e =
    ap
      (λ (o : Option Sdu). elim o [
        | none ↦ given_up iso
        | some sdu ↦ report (given_up iso) confirmation result
      ])
      e

tx_abort-tx : (iso : Isotp) (result : TpResult) → (tx_abort iso result).tx ≡ (given_up iso).tx
tx_abort-tx iso result = elim (Option-cases iso.tx.sdu) [
  | inl e ↦ ap (λ (o : Isotp). o.tx) (tx_abort-given_up iso result none e)
  | inr (s, e) ↦
      ap (λ (o : Isotp). o.tx) (tx_abort-given_up iso result (some s) e)
      ∙ report-tx (given_up iso) confirmation result
]

tx_abort-rests :
    (iso : Isotp) (result : TpResult)
    → ((tx_abort iso result).tx.state ≡ at_rest) × ((tx_abort iso result).tx.sdu ≡ none)
tx_abort-rests iso result =
    let e = tx_abort-tx iso result in (ap (λ (t : Tx). t.state) e, ap (λ (t : Tx). t.sdu) e)

-- One such frame.
tx_apply_fc-hold_on :
    (iso : Isotp) (f : Msg)
    → iso.tx.state ≡ wait_fc
    → is_wait f ≡ true
    → tx_apply_fc iso f ≡ hold_on iso
unfolding tx_apply_fc
tx_apply_fc-hold_on iso f e w =
    let s : is_wait_fc iso.tx.state ≡ true = ap is_wait_fc e in ground arith

hold_on-holds :
    (iso : Isotp)
    → iso.tx.state ≡ wait_fc
    → iso.tx.wft < iso.cfg.n_wft_max
    → iso.cfg.n_wft_max < 255
    → ((hold_on iso).tx.state ≡ wait_fc)
      × ((hold_on iso).tx.wft ≡ iso.tx.wft + 1)
      × ((hold_on iso).cfg ≡ iso.cfg)
unfolding hold_on
hold_on-holds iso e h b = ground arith

hold_on-ends :
    (iso : Isotp)
    → iso.tx.wft ≡ iso.cfg.n_wft_max
    → iso.cfg.n_wft_max < 255
    → ((hold_on iso).tx.state ≡ at_rest) × ((hold_on iso).tx.sdu ≡ none)
unfolding hold_on
hold_on-ends iso h b =
    subst (λ (o : Isotp). (o.tx.state ≡ at_rest) × (o.tx.sdu ≡ none))
      (sym (if-true {b = ltb iso.cfg.n_wft_max (u8 (iso.tx.wft + 1))} _ _ (ground arith)))
      (tx_abort-rests (record iso { tx = record iso.tx { wft = u8 (iso.tx.wft + 1) } }) n_wft_ovrn)

tx_apply_fc-ignored : (iso : Isotp) (f : Msg) → iso.tx.state ≡ at_rest → tx_apply_fc iso f ≡ iso
unfolding tx_apply_fc
tx_apply_fc-ignored iso f e =
    let s : is_wait_fc iso.tx.state ≡ false = ap is_wait_fc e in
    if-true {b = not (is_wait_fc iso.tx.state) || ltb (dlc_to_len f.dlc) 3} _ _ (ground arith)

apply_fcs-ignored : (iso : Isotp) (fs : List Msg) → iso.tx.state ≡ at_rest → apply_fcs iso fs ≡ iso
apply_fcs-ignored iso [] e = refl
apply_fcs-ignored iso (f ∷ fs) e =
    ap (λ o. apply_fcs o fs) (tx_apply_fc-ignored iso f e) ∙ apply_fcs-ignored iso fs e

-- What so many frames leave: the wait goes on up to the number that is tolerated, and ends beyond.
abbrev pub Waits : (iso : Isotp) (count : ℕ) (o : Isotp) → Type 0
Waits iso count o =
    (iso.tx.wft + count ≤ iso.cfg.n_wft_max
      → (o.tx.state ≡ wait_fc) × (o.tx.wft ≡ iso.tx.wft + count))
    × (iso.cfg.n_wft_max < iso.tx.wft + count → (o.tx.state ≡ at_rest) × (o.tx.sdu ≡ none))

-- A transmission that awaits flow control, and frames that all ask to wait: as long as no more of them have come in
-- turn than are tolerated it goes on waiting, and with one more it has ended and the message is given up. The
-- number that is tolerated is at most 254.
pub apply_fcs-Waits :
    (iso : Isotp) (fs : List Msg)
    → iso.tx.state ≡ wait_fc
    → iso.tx.wft ≤ iso.cfg.n_wft_max
    → iso.cfg.n_wft_max < 255
    → all_wait fs ≡ true
    → Waits iso (length fs) (apply_fcs iso fs)
apply_fcs-Waits iso [] e h b w = (λ l. (e, omega arith), λ l. absurd (omega arith))
apply_fcs-Waits iso (f ∷ fs) e h b w =
    let first = tx_apply_fc-hold_on iso f e (ground arith) in
    subst (λ o. Waits iso (suc (length fs)) (apply_fcs o fs)) (sym first)
      (elim (Bool-cases (ltb iso.tx.wft iso.cfg.n_wft_max)) [
        | inl more ↦
            let below : iso.tx.wft < iso.cfg.n_wft_max = ground arith in
            let (e', n, c) = hold_on-holds iso e below b in
            let g = ap (λ c. c.n_wft_max) c in
            let (goes, ends) =
              apply_fcs-Waits (hold_on iso) fs e' (omega arith) (omega arith) (ground arith) in
            (λ l. let (s, t) = goes (omega arith) in (s, omega arith), λ l. ends (omega arith))
        | inr full ↦
            let top : iso.cfg.n_wft_max ≤ iso.tx.wft = ground arith in
            let q = apply_fcs-ignored (hold_on iso) fs (hold_on-ends iso (omega arith) b).0 in
            (
              λ l. absurd (omega arith),
              λ l.
                  subst (λ (o : Isotp). (o.tx.state ≡ at_rest) × (o.tx.sdu ≡ none)) (sym q)
                    (hold_on-ends iso (omega arith) b),
            )
      ])
