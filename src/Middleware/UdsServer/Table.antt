-- ===== src/Middleware/UdsServer/Table.antt =====
-- src/middleware/nx_uds.h and nx_uds_server.c: the service table. A pointer with its count is the list
-- of that many entries. The application is a value that a handler takes and gives back, with the
-- session of the server and a reading of the clock.
use nx_c_util.Base.{
  ℕ, suc, ◌^◌, Bool, true, false, not, ◌&&◌, ◌||◌, Option, none, some, List, [], ◌∷◌, length, ltb,
  leb, ◌==◌, if◌then◌else◌, bit_and, get_or,
}
use nx_c_util.Middleware.Uds.{Ctx, Outcome}
use nx_c_util.Middleware.UdsServer.{Server, session_max}

-- `nx_uds_handler_fn`
abbrev pub Handler : Type 0 → Type 0
Handler M = (now : ℕ) → Ctx → Server → M → Outcome (Server × M)

-- `nx_uds_service_t`
pub record Row (M : Type 0) : Type 0 where
  pub sid : ℕ
  pub flags : ℕ
  pub sec_level : ℕ
  pub subs : Option (List ℕ)
  pub sub_session_masks : Option (List ℕ)
  pub session_mask : ℕ
  pub min_len : ℕ
  pub max_len : ℕ
  pub p4_us : ℕ
  pub max_pending : ℕ
  pub p4_nrc : ℕ
  pub handler : Option (Handler M)

-- `NX_UDS_SESSION_BIT`
abbrev pub session_bit : ℕ → ℕ
session_bit s = if leb s session_max then 2 ^ s else 0

-- `NX_UDS_SUPPRESSES_POS_RSP`, `NX_UDS_SUB_FUNCTION`
abbrev pub suppresses_pos : ℕ → Bool
suppresses_pos b = not (bit_and b 0x80 == 0)

abbrev pub sub_function : ℕ → ℕ
sub_function b = bit_and b 0x7F

-- `uds_is_response_sid`
unfoldable pub is_response_sid : ℕ → Bool
is_response_sid sid = (leb 0x40 sid && leb sid 0x7F) || leb 0xC0 sid

-- `uds_find_sub`
unfoldable pub find_sub : List ℕ → ℕ → ℕ
find_sub [] sub = 0
find_sub (s ∷ subs) sub = let rest = find_sub subs sub in if s == sub then 0 else suc rest

module _ {M : Type 0} where
  abbrev pub has_sub_function : Row M → Bool
  has_sub_function row = not (bit_and row.flags 0x01 == 0)

  abbrev pub answers_functional : Row M → Bool
  answers_functional row = not (bit_and row.flags 0x04 == 0)

  -- `uds_find_row`
  unfoldable pub find_row : List (Row M) → ℕ → ℕ
  find_row [] sid = 0
  find_row (row ∷ rows) sid = let rest = find_row rows sid in if row.sid == sid then 0 else suc rest

  -- `uds_row_in_session`
  unfoldable pub row_in_session : Row M → ℕ → Bool
  row_in_session row session = not (bit_and row.session_mask (session_bit session) == 0)

  -- `uds_sub_session_mask`
  unfoldable pub sub_session_mask : Row M → ℕ → ℕ
  sub_session_mask row i = elim row.sub_session_masks [
    | none ↦ row.session_mask
    | some masks ↦ get_or masks i 0
  ]

  -- `row->subs == NULL || row->subs_count == 0u`
  abbrev pub lists_no_subs : Row M → Bool
  lists_no_subs row = elim row.subs [ none ↦ true | some subs ↦ length subs == 0 ]

  -- What `nx_uds_server_init` asks of a row.
  unfoldable pub row_valid : Row M → Bool
  row_valid row =
      if elim row.handler [ none ↦ true | some h ↦ false ]
      then false
      else if is_response_sid row.sid
      then false
      else if row.session_mask == 0
      then false
      else if ltb row.min_len 1
      then false
      else if not (row.max_len == 0) && ltb row.max_len row.min_len
      then false
      else if has_sub_function row && ltb row.min_len 2
      then false
      else not
          (elim row.sub_session_masks [ none ↦ false | some masks ↦ true ] && lists_no_subs row)

  -- Of all rows.
  unfoldable pub rows_valid : List (Row M) → Bool
  rows_valid [] = true
  rows_valid (row ∷ rows) = row_valid row && rows_valid rows
