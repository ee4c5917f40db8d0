-- ===== src/Middleware/UdsServer/Held.antt =====
-- The session over any sequence of calls.
use nx_c_util.Base.{
  ℕ, ◌^◌, ◌<◌, ◌≡◌, refl, arith, Bool, true, false, not, ◌&&◌, List, [], ◌∷◌, ◌≢◌, ◌==◌,
  if◌then◌else◌, ◌+32◌, reached,
}
use nx_c_util.Middleware.UdsServer.{
  Server, default_session, session_in_range, arm_s3, enter_session, set_session, set_sec_level,
  touch, check_s3,
}

-- A call at a reading of the clock.
pub data Event : Type 0 where
  to_session : (now session : ℕ) → Event
  to_level : (level : ℕ) → Event
  touched : (now : ℕ) → Event
  checked : (now : ℕ) → Event

abbrev pub apply : Server → Event → Server
apply srv (to_session now session) = set_session now srv session
apply srv (to_level level) = set_sec_level srv level
apply srv (touched now) = touch now srv
apply srv (checked now) = check_s3 now srv

abbrev pub apply_all : Server → List Event → Server
apply_all srv [] = srv
apply_all srv (e ∷ es) = apply_all (apply srv e) es

-- The session is one that a mask reaches, and the quiet timer runs in all of them but the default one.
pub record IsHeld (srv : Server) : Type 0 where
  pub in_range : session_in_range srv.session ≡ true
  pub armed : srv.s3_armed ≡ not (srv.session == default_session)

enter_session-IsHeld :
    (now : ℕ) (srv : Server) (session : ℕ)
    → session_in_range session ≡ true
    → IsHeld (enter_session now srv session)
unfolding enter_session arm_s3
enter_session-IsHeld now srv session h = record { in_range = ground arith; armed = ground arith }

touch-IsHeld : (now : ℕ) (srv : Server) → IsHeld srv → IsHeld (touch now srv)
unfolding touch arm_s3
touch-IsHeld now srv h = record {
  in_range = let r = h.in_range in ground arith;
  armed = ground arith;
}

if-IsHeld :
    (b : Bool) (s t : Server) → IsHeld s → (b ≡ false → IsHeld t) → IsHeld (if b then s else t)
if-IsHeld true s t h k = h
if-IsHeld false s t h k = k refl

apply-IsHeld : (srv : Server) (e : Event) → IsHeld srv → IsHeld (apply srv e)
unfolding set_session set_sec_level check_s3
apply-IsHeld srv (to_session now session) h =
    if-IsHeld (not (session_in_range session)) _ _ h
      λ ok. enter_session-IsHeld now srv session (ground arith)
apply-IsHeld srv (to_level level) h = record { in_range = h.in_range; armed = h.armed }
apply-IsHeld srv (touched now) h = touch-IsHeld now srv h
apply-IsHeld srv (checked now) h =
    if-IsHeld (srv.s3_armed && reached now srv.s3_deadline) _ _
      (enter_session-IsHeld now srv default_session refl) λ ok. h

apply_each-IsHeld : (srv : Server) (es : List Event) → IsHeld srv → IsHeld (apply_all srv es)
apply_each-IsHeld srv [] h = h
apply_each-IsHeld srv (e ∷ es) h = apply_each-IsHeld (apply srv e) es (apply-IsHeld srv e h)

expiry :
    (now later : ℕ) (srv : Server)
    → later < 2 ^ 32
    → reached later (now +32 srv.s3_us) ≡ true
    → let gone = check_s3 later (touch now srv) in
      srv.session ≢ default_session
      → (gone.session ≡ default_session) × (gone.sec_level ≡ 0) × (gone.s3_armed ≡ false)
unfolding check_s3 touch enter_session arm_s3
expiry now later srv l due other = ground arith

-- Whatever sequence of entering sessions, setting levels, touching and checking the quiet timer a server goes
-- through from a held state: its session is one that a mask reaches, and the timer is armed in all sessions but
-- the default one. From there, in any other session, a touch and then a check that finds the quiet time over
-- lead to the default session, locked and with the timer off.
pub apply_all-IsHeld :
    (srv : Server) (es : List Event) (now later : ℕ)
    → IsHeld srv
    → later < 2 ^ 32
    → let held = apply_all srv es in
      IsHeld held
      × (held.session ≢ default_session
          → reached later (now +32 held.s3_us) ≡ true
          → let gone = check_s3 later (touch now held) in
            (gone.session ≡ default_session) × (gone.sec_level ≡ 0) × (gone.s3_armed ≡ false))
apply_all-IsHeld srv es now later h l =
    (apply_each-IsHeld srv es h, λ other due. expiry now later (apply_all srv es) l due other)
