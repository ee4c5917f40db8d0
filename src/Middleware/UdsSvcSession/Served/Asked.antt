-- ===== src/Middleware/UdsSvcSession/Served/Asked.antt =====
-- The request for a session, from the carrier to the handler and back.
use nx_c_util.Base.{
  ℕ, ◌+◌, ◌≤◌, ◌<◌, ◌≡◌, ◌≢◌, ◌⊎◌, inl, inr, refl, sym, ap, ap₂, ◌∙◌, arith, Bool, true, false, not,
  ◌&&◌, ◌||◌, Option, none, some, List, [], ◌∷◌, length, ltb, leb, ◌==◌, if◌then◌else◌, if-false,
  if-elim, get_elem?, get_or, take, copy_at, bit_and,
}
use nx_c_util.Base.Finite.{all_bytes, all_bytes_sound}
use mathlib.Core.Path.{subst}
use nx_c_util.Middleware.UdsServer.{Server, session_in_range, session_max, arm_s3}
use nx_c_util.Middleware.UdsServer.Table.{
  Row, session_bit, suppresses_pos, sub_function, is_response_sid, find_sub, find_row,
  has_sub_function, row_in_session, sub_session_mask, lists_no_subs,
}
use nx_c_util.Middleware.UdsServer.Instance.{
  vacant, sending, is_vacant, Instance, now, txn_row, row_handler,
}
use nx_c_util.Middleware.UdsServer.Process.{ServerRet, ok}
use nx_c_util.Middleware.UdsServer.Indicate.{
  txn_begin, enter_handler, check_sub, read_sub, take_request, dispatch, look_up, arm, too_long,
  indicate, refuse_before,
}
use nx_c_util.Middleware.UdsSvcSession.{allowed, control}
use nx_c_util.Middleware.UdsSvcSession.Served.{Answering, Asking, enter_handler-Answering}

-- A session's number is no more than a sub-function has room for.
plain_test : ℕ → Bool
plain_test b = if leb b session_max then (not (suppresses_pos b) && (sub_function b == b)) else true

plain_all : all_bytes plain_test ≡ true
unfolding plain_test all_bytes
plain_all = refl

plain : (s : ℕ) → session_in_range s ≡ true → (suppresses_pos s ≡ false) × (sub_function s ≡ s)
unfolding plain_test
plain s h =
    let small : s < 256 = ground arith in
    let t = all_bytes_sound plain_test s plain_all small in ground arith

level_test : (needed given : ℕ) → needed ≤ given → (not (needed == 0) && ltb given needed) ≡ false
level_test needed given h = ground arith

window_test :
    (least most : ℕ)
    → least ≤ 2
    → (most ≡ 0) ⊎ (2 ≤ most)
    → (ltb 2 least || (not (most == 0) && ltb most 2)) ≡ false
window_test least most h (inl none_set) = ground arith
window_test least most h (inr enough) = ground arith

module _ {M : Type 0} (c : nx_c_util.Middleware.UdsSvcSession.Cfg M) (s : ℕ) (row : Row M)
    (subs : List ℕ) (session level : ℕ) where
  -- A row of the table that lets a request for the session through to its handler.
  pub record Lets : Type 0 where
    pub handler : row.handler ≡ some (control c)
    pub in_session : row_in_session row session ≡ true
    pub unlocked : row.sec_level ≤ level
    pub least : row.min_len ≤ 2
    pub most : (row.max_len ≡ 0) ⊎ (2 ≤ row.max_len)
    pub has_sub : has_sub_function row ≡ true
    pub lists : row.subs ≡ some subs
    pub listed : find_sub subs s < length subs
    pub open_to : bit_and (sub_session_mask row (find_sub subs s)) (session_bit session) ≢ 0
    pub ranged : session_in_range s ≡ true

  -- A server in a session, whose table has that row, with room for the answer.
  pub record Fits (i : Instance M) : Type 0 where
    pub found : get_elem? i.cfg.services (find_row i.cfg.services 0x10) ≡ some row
    pub room : 6 ≤ i.cfg.out_buf_size
    pub granted : 6 ≤ i.cfg.max_resp_apdu
    pub buffer : 1 ≤ length i.out_buf
    pub at_session : i.srv.session ≡ session
    pub at_level : i.srv.sec_level ≡ level
    pub agreed : (allowed c.allow_fn i.app session s).0 ≡ true

  -- The same with the request in its buffer.
  record Holds (i : Instance M) : Type 0 where
    fits : Fits i
    named : get_or i.req_buf 0 0 ≡ 0x10
    asked : get_or i.req_buf 1 0 ≡ s

  module _ (l : Lets) where
    begun : Instance M → (link : ℕ) → Instance M
    begun i link = read_sub (txn_begin i (find_row i.cfg.services 0x10) 2 0 link)

    begun-sub : (i : Instance M) (link : ℕ) → Holds i → (begun i link).txn.ctx.sub ≡ s
    unfolding begun read_sub txn_begin
    begun-sub i link h = ap sub_function h.asked ∙ (plain s l.ranged).1

    begun-Asking : (i : Instance M) (link : ℕ) → Holds i → Asking c s (begun i link)
    unfolding begun read_sub txn_begin txn_row row_handler
    begun-Asking i link h = record {
      handler = ap row_handler h.fits.found ∙ l.handler;
      sid = h.named;
      sub = begun-sub i link h;
      ranged = ap session_in_range (begun-sub i link h) ∙ l.ranged;
      agreed =
          ap₂ (λ from to. (allowed c.allow_fn i.app from to).0) h.fits.at_session
            (begun-sub i link h)
          ∙ h.fits.agreed;
      room = (let r = h.fits.room in let g = h.fits.granted in ground arith);
      buffer = h.fits.buffer;
      loud = ap suppresses_pos h.asked ∙ (plain s l.ranged).0;
      physical = refl;
    }

    check_sub-passes :
        (i : Instance M) (link : ℕ)
        → Holds i
        → check_sub (begun i link) row subs ≡ enter_handler (begun i link)
    unfolding begun read_sub txn_begin check_sub
    check_sub-passes i link h =
        let e = begun-sub i link h in
        if-false {b = leb (length subs) (find_sub subs (sub_function (get_or i.req_buf 1 0)))} _ _
          (ap (λ n. leb (length subs) (find_sub subs n)) e ∙ (let k = l.listed in ground arith))
        ∙ if-false
            {b = bit_and
                (sub_session_mask row (find_sub subs (sub_function (get_or i.req_buf 1 0))))
                (session_bit i.srv.session)
              == 0}
            _ _
            (ap₂ (λ n t. bit_and (sub_session_mask row (find_sub subs n)) (session_bit t) == 0) e
                h.fits.at_session
              ∙ (let k = l.open_to in ground arith))

    take_request-passes :
        (i : Instance M) (link : ℕ)
        → Holds i
        → take_request (txn_begin i (find_row i.cfg.services 0x10) 2 0 link) row
          ≡ enter_handler (begun i link)
    unfolding begun take_request
    take_request-passes i link h =
        if-false {b = not (has_sub_function row)} _ _ (ap not l.has_sub)
        ∙ if-false {b = lists_no_subs row} _ _ (
            ap (λ (o : Option (List ℕ)). elim o [ none ↦ true | some subs ↦ length subs == 0 ])
              l.lists
            ∙ (let k = l.listed in ground arith))
        ∙ ap
            (λ (o : Option (List ℕ)).
              check_sub (begun i link) row (elim o [ none ↦ [] | some subs ↦ subs ]))
            l.lists
        ∙ check_sub-passes i link h

    look_up-passes :
        (i : Instance M) (link : ℕ)
        → Holds i
        → look_up i 0x10 2 0 link ≡ enter_handler (begun i link)
    unfolding look_up dispatch
    look_up-passes i link h =
        let at = find_row i.cfg.services 0x10 in
        ap
          (λ (o : Option (Row M)). elim o [
            | none ↦ refuse_before i (length i.cfg.services) 2 0 link 0x11
            | some row ↦ dispatch i row at 2 0 link
          ])
          h.fits.found
        ∙ if-false {b = not (row_in_session row i.srv.session)} _ _
            (ap (λ n. not (row_in_session row n)) h.fits.at_session ∙ ap not l.in_session)
        ∙ if-false {b = not (row.sec_level == 0) && ltb i.srv.sec_level row.sec_level} _ _ (
            level_test row.sec_level i.srv.sec_level
              (subst (λ n. row.sec_level ≤ n) (sym h.fits.at_level) l.unlocked))
        ∙ if-false {b = ltb 2 row.min_len || (not (row.max_len == 0) && ltb row.max_len 2)} _ _
            (window_test row.min_len row.max_len l.least l.most)
        ∙ take_request-passes i link h

  arm_s3-same :
      (now : ℕ) (srv : Server)
      → ((arm_s3 now srv).session ≡ srv.session) × ((arm_s3 now srv).sec_level ≡ srv.sec_level)
  unfolding arm_s3
  arm_s3-same now srv = ground arith

  armed-Holds :
      (i : Instance M) (now reads : ℕ)
      → Holds i
      → Holds (record i { srv = arm_s3 now i.srv; reads = reads })
  armed-Holds i now reads h =
      let (e, e') = arm_s3-same now i.srv in
      record {
        fits = record {
          found = h.fits.found;
          room = h.fits.room;
          granted = h.fits.granted;
          buffer = h.fits.buffer;
          at_session = e ∙ h.fits.at_session;
          at_level = e' ∙ h.fits.at_level;
          agreed = h.fits.agreed;
        };
        named = h.named;
        asked = h.asked;
      }

  arm-Holds : (i : Instance M) → Holds i → Holds (arm i) × ((arm i).cfg ≡ i.cfg)
  unfolding arm
  arm-Holds i h =
      if-elim (λ (o : Instance M). Holds o × (o.cfg ≡ i.cfg)) (i.srv.session == 1)
        (λ default. (armed-Holds i 0 i.reads h, refl))
        (λ other. (armed-Holds i (now i) (i.reads + 1) h, refl))

  -- The request is copied to the front of the buffer.
  copied :
      (xs : List ℕ)
      → 2 ≤ length xs
      → (get_or (copy_at xs 0 (take 2 (0x10 ∷ s ∷ []))) 0 0 ≡ 0x10)
        × (get_or (copy_at xs 0 (take 2 (0x10 ∷ s ∷ []))) 1 0 ≡ s)
  copied [] h = absurd (omega arith)
  copied (x ∷ []) h = absurd (omega arith)
  copied (x ∷ y ∷ xs) h = (refl, refl)

  is_no_answer : (b : Bool) → (not b && is_response_sid 0x10) ≡ false
  unfolding is_response_sid
  is_no_answer b = ground arith

  -- A server at rest that takes the request and hands it to the handler has its answer ready, in the
  -- session that it was in.
  pub indicate-Answering :
      (i : Instance M)
      → Lets
      → Fits i
      → i.txn.state ≡ vacant
      → too_long i.cfg 2 ≡ false
      → 2 ≤ length i.req_buf
      → let o = indicate i (0x10 ∷ s ∷ []) 2 0 i.cfg.link in
        (o.0 ≡ ok)
        × Answering c s o.1
        × (o.1.txn.state ≡ sending)
        × (o.1.srv.session ≡ session)
        × (o.1.cfg ≡ i.cfg)
  unfolding indicate begun read_sub txn_begin
  indicate-Answering i l f resting short kept_room =
      let kept : Instance M = record i { req_buf = copy_at i.req_buf 0 (take 2 (0x10 ∷ s ∷ [])) } in
      let (named, asked) = copied i.req_buf kept_room in
      let h : Holds kept = record {
        fits = record {
          found = f.found;
          room = f.room;
          granted = f.granted;
          buffer = f.buffer;
          at_session = f.at_session;
          at_level = f.at_level;
          agreed = f.agreed;
        };
        named = named;
        asked = asked;
      } in
      let (h', same) = arm-Holds kept h in
      let served =
        enter_handler-Answering c s (begun l (arm kept) i.cfg.link)
          (begun-Asking l (arm kept) i.cfg.link h') in
      let e : indicate i (0x10 ∷ s ∷ []) 2 0 i.cfg.link
          ≡ (ok, enter_handler (begun l (arm kept) i.cfg.link)) =
        if-false {b = not (i.cfg.link == i.cfg.link)} _ _ (ground arith)
        ∙ if-false {b = not (is_vacant i.txn.state)} _ _ (ap (λ t. not (is_vacant t)) resting)
        ∙ if-false {b = not i.cfg.accept_rsp_range_sid && is_response_sid 0x10} _ _
            (is_no_answer i.cfg.accept_rsp_range_sid)
        ∙ if-false {b = too_long i.cfg 2} _ _ short
        ∙ ap (λ x. (ok, x)) (look_up-passes l (arm kept) i.cfg.link h') in
      let (answering, live, srv, cfg) = served in
      subst
        (λ (o : ServerRet × Instance M).
          (o.0 ≡ ok)
          × Answering c s o.1
          × (o.1.txn.state ≡ sending)
          × (o.1.srv.session ≡ session)
          × (o.1.cfg ≡ i.cfg))
        (sym e)
        (refl, answering, live, ap (λ (x : Server). x.session) srv ∙ h'.fits.at_session, cfg ∙ same)
