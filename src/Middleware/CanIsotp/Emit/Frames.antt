-- ===== src/Middleware/CanIsotp/Emit/Frames.antt =====
-- The frames that are built: how long they are and what they carry.
use nx_c_util.Base.{
  ℕ, zero, suc, ◌+◌, ◌-◌, ◌≤◌, ◌<◌, ◌≡◌, refl, ap, arith, Bool, true, not, ◌&&◌, ◌||◌, List, ◌++◌,
  length, min, ltb, ◌==◌, if◌then◌else◌, bit_and, get_or, take, replicate, length-append,
  length-take,
}
use nx_c_util.Base.Finite.{all_bytes, all_bytes_sound}
use nx_c_util.Middleware.CanBus.{max_dlc, dlc_to_len, len_to_dlc}
use nx_c_util.Middleware.CanBus.Lengths.{len_to_dlc-dlc_to_len, dlc_to_len_mono, dlc_to_len_bound}
use nx_c_util.Middleware.CanIsotp.{Cfg}
use nx_c_util.Middleware.CanIsotp.Emit.{chunk_len, dlc_for, frame_of, cf_pci}
use nx_c_util.Middleware.CanIsotp.Process.{frame_len_valid}

-- What a valid frame length is.
pub record HasLength (len : ℕ) : Type 0 where
  pub least : 8 ≤ len
  pub most : len ≤ 64
  pub exact : dlc_to_len (len_to_dlc len) ≡ len

pub frame_len_valid-HasLength : (len : ℕ) → frame_len_valid len ≡ true → HasLength len
unfolding frame_len_valid
frame_len_valid-HasLength len h =
    let b = dlc_to_len_bound (len_to_dlc len) in
    record { least = ground arith; most = ground arith; exact = ground arith }

pub chunk_len_lem :
    (cfg : Cfg) (plen hdr : ℕ)
    → HasLength cfg.max_frame_len
    → hdr ≤ 6
    → chunk_len cfg plen hdr ≡ min plen (cfg.max_frame_len - hdr)
unfolding chunk_len
chunk_len_lem cfg plen hdr v h = let l = v.least in let m = v.most in ground arith

-- The code of a frame with so many bytes in use.
pub record Fits (cfg : Cfg) (used dlc : ℕ) : Type 0 where
  pub code : dlc ≤ max_dlc
  pub holds : used ≤ dlc_to_len dlc
  pub bounded : dlc_to_len dlc ≤ cfg.max_frame_len
  pub full : used ≡ cfg.max_frame_len → dlc_to_len dlc ≡ cfg.max_frame_len

want-Fits :
    (cfg : Cfg) (used want : ℕ)
    → HasLength cfg.max_frame_len
    → used ≤ want
    → want ≤ cfg.max_frame_len
    → Fits cfg used (len_to_dlc want)
want-Fits cfg used want v h h' =
    let l = v.least in
    let m = v.most in
    let e = v.exact in
    let d = len_to_dlc cfg.max_frame_len in
    let top = len_to_dlc-dlc_to_len cfg.max_frame_len 0 (omega arith) (omega arith) in
    let (code, holds, least, back) = len_to_dlc-dlc_to_len want d (omega arith) top.0 in
    let mono = dlc_to_len_mono (len_to_dlc want) d (least (omega arith)) top.0 in
    record { code = code; holds = omega arith; bounded = omega arith; full = λ x. omega arith }

pub dlc_for-Fits :
    (cfg : Cfg) (used : ℕ)
    → HasLength cfg.max_frame_len
    → used ≤ cfg.max_frame_len
    → Fits cfg used (dlc_for cfg used)
unfolding dlc_for
dlc_for-Fits cfg used v h =
    let l = v.least in
    want-Fits cfg used (if cfg.pad_frames && ltb used 8 then 8 else used) v (ground arith)
      (ground arith)

pub length-replicate : (n x : ℕ) → length (replicate n x) ≡ n
length-replicate zero x = refl
length-replicate (suc n) x = ap suc (length-replicate n x)

length-parts :
    (pci src : List ℕ) (n k x : ℕ)
    → n ≤ length src
    → length (pci ++ (take n src ++ replicate k x)) ≡ length pci + n + k
length-parts pci src n k x h =
    let a = length-append pci (take n src ++ replicate k x) in
    let b = length-append (take n src) (replicate k x) in
    let c = length-take n src in let d = length-replicate k x in omega arith

-- A frame with a header of at most six bytes carries the header, then as much of the payload as there is room for,
-- then padding; its bytes are as many as its code says, at most the configured frame length, and that many where
-- the frame is used in full.
pub frame_of-Fits :
    (cfg : Cfg) (id : ℕ) (src : List ℕ) (plen : ℕ) (pci : List ℕ)
    → frame_len_valid cfg.max_frame_len ≡ true
    → length pci ≤ 6
    → plen ≤ length src
    → let m = frame_of cfg id src plen pci in
      let chunk = min plen (cfg.max_frame_len - length pci) in
      Fits cfg (length pci + chunk) m.dlc
      × (length m.bytes ≡ dlc_to_len m.dlc)
      × ((pad : List ℕ) × (m.bytes ≡ pci ++ (take chunk src ++ pad)))
unfolding frame_of
frame_of-Fits cfg id src plen pci valid h l =
    let v = frame_len_valid-HasLength cfg.max_frame_len valid in
    let c = chunk_len_lem cfg plen (length pci) v h in
    let least = v.least in
    let used = length pci + min plen (cfg.max_frame_len - length pci) in
    let fits = dlc_for-Fits cfg used v (omega arith) in
    let holds = fits.holds in
    let pad = replicate (dlc_to_len (dlc_for cfg used) - used) cfg.pad_byte in
    rw c (
      fits,
      omega (
        arith,
        length-parts pci src (min plen (cfg.max_frame_len - length pci))
            (dlc_to_len (dlc_for cfg used) - used) cfg.pad_byte (omega arith),
      ),
      (pad, refl),
    )

-- Headers of consecutive frames.
cf_test : ℕ → Bool
cf_test sn =
    not (ltb sn 16)
    || ((bit_and (get_or (cf_pci sn) 0 0) 0xF0 == 0x20)
        && (bit_and (get_or (cf_pci sn) 0 0) 0x0F == sn))

cf_check : all_bytes cf_test ≡ true
unfolding all_bytes cf_test cf_pci
cf_check = refl

pub length-cf_pci : (sn : ℕ) → length (cf_pci sn) ≡ 1
unfolding cf_pci
length-cf_pci sn = refl

cf_pci_kind :
    (sn : ℕ)
    → sn < 16
    → cf_test sn ≡ true
    → (bit_and (get_or (cf_pci sn) 0 0) 0xF0 ≡ 0x20) × (bit_and (get_or (cf_pci sn) 0 0) 0x0F ≡ sn)
unfolding cf_test
cf_pci_kind sn h t = (ground arith, ground arith)

pub cf_pci_lem :
    (sn : ℕ)
    → sn < 16
    → (bit_and (get_or (cf_pci sn) 0 0) 0xF0 ≡ 0x20) × (bit_and (get_or (cf_pci sn) 0 0) 0x0F ≡ sn)
cf_pci_lem sn h = cf_pci_kind sn h (all_bytes_sound cf_test sn cf_check (omega arith))
