-- ===== src/Middleware/UdsServer/Sound/Running.antt =====
-- src/middleware/nx_uds_server.c: any sequence of the calls of a server.
use nx_c_util.Base.{
  ℕ, ◌≡◌, refl, arith, not, Option, none, some, List, [], ◌∷◌, length, if-elim, get_elem?,
}
use mathlib.Core.Path.{subst}
use nx_c_util.Middleware.UdsServer.Held.{Event, apply}
use nx_c_util.Middleware.UdsServer.Instance.{OutFn, Cfg, Instance, txn_row, row_handler}
use nx_c_util.Middleware.UdsServer.Process.{
  txn_max_pending, process, confirm_link, set_output, accepts, resolved, init,
}
use nx_c_util.Middleware.UdsServer.Indicate.{indicate}
use nx_c_util.Middleware.UdsServer.Sound.{
  HasRespect, Carries, at_rest, at_send, Sound, settled, at_work,
}
use nx_c_util.Middleware.UdsServer.Sound.Keeping.{aside-Sound}
use nx_c_util.Middleware.UdsServer.Sound.Driving.{process-Sound, confirm_link-Sound}
use nx_c_util.Middleware.UdsServer.Sound.Accepting.{indicate-Sound}

-- A call of a server: by what carries it, by its loop, or by the application about its session.
pub data Call (M : Type 0) : Type 0 where
  indicated : (req : List ℕ) (len ta_type link : ℕ) → Call M
  processed : Call M
  confirmed : (link result : ℕ) → Call M
  attached : OutFn M → Call M
  session_call : Event → Call M

module _ {M : Type 0} where
  unfoldable pub after : Instance M → Call M → Instance M
  after i (indicated req len ta_type link) = (indicate i req len ta_type link).1
  after i processed = process i
  after i (confirmed link result) = (confirm_link i link result).1
  after i (attached out_fn) = set_output i out_fn
  after i (session_call event) = record i { srv = apply i.srv event }

  unfoldable pub after_all : Instance M → List (Call M) → Instance M
  unfolding after
  after_all i [] = i
  after_all i (call ∷ calls) = after_all (after i call) calls

  -- The carrier may be replaced.
  output-Carries : (i : Instance M) (out_fn : OutFn M) → Carries i → Carries (set_output i out_fn)
  unfolding set_output txn_max_pending txn_row
  output-Carries i out_fn c = record {
    careful = record { room = c.careful.room; handlers = c.careful.handlers };
    kept = c.kept;
    buffer = c.buffer;
    cap = c.cap;
    count = c.count;
  }

  set_output-Sound : (i : Instance M) (out_fn : OutFn M) → Sound i → Sound (set_output i out_fn)
  unfolding set_output
  set_output-Sound i out_fn (at_work c e) = at_work (output-Carries i out_fn c) e
  set_output-Sound i out_fn (settled (at_rest c k e)) =
      settled (at_rest (record { room = c.room; handlers = c.handlers }) k e)
  set_output-Sound i out_fn (settled (at_send c h e)) = settled (
      at_send (output-Carries i out_fn c)
        (record { answered = h.answered; some_bytes = h.some_bytes; within = h.within }) e)

  after-Sound : (i : Instance M) (call : Call M) → Sound i → Sound (after i call)
  unfolding after
  after-Sound i (indicated req len ta_type link) h = indicate-Sound i req len ta_type link h
  after-Sound i processed h = process-Sound i h
  after-Sound i (confirmed link result) h = confirm_link-Sound i link result h
  after-Sound i (attached out_fn) h = set_output-Sound i out_fn h
  after-Sound i (session_call event) h = aside-Sound i i.req_buf (apply i.srv event) i.app i.reads h

  after_all-Keeps : (i : Instance M) (calls : List (Call M)) → Sound i → Sound (after_all i calls)
  unfolding after_all
  after_all-Keeps i [] h = h
  after_all-Keeps i (call ∷ calls) h = after_all-Keeps (after i call) calls (after-Sound i call h)

  abbrev IsSoundIfAny : Option (Instance M) → Type 0
  IsSoundIfAny none = Unit
  IsSoundIfAny (some i) = Sound i

  init-Sound :
      (i : Instance M) (cfg : Cfg M)
      → length i.out_buf ≡ cfg.out_buf_size
      → ((n : ℕ) → HasRespect (row_handler (get_elem? cfg.services n)))
      → IsSoundIfAny (init i cfg)
  unfolding init accepts resolved
  init-Sound i cfg k handlers =
      if-elim IsSoundIfAny (not (accepts cfg i.srv)) (λ refused. tt)
        λ taken. settled (at_rest (record { room = ground arith; handlers = handlers }) k refl)

  -- Whatever calls follow a successful `init`, the server is at rest with no trace of a transaction, or
  -- runs one with its buffer whole and no more notifications counted than it may send, or has in
  -- addition an answer of at least one byte and no more than the buffer holds, offered or with the
  -- carrier. The handlers of the table write within their buffer, and in the phases in which they are
  -- only told something they leave the answer's length.
  pub after_all-Sound :
      (i o : Instance M) (cfg : Cfg M) (calls : List (Call M))
      → init i cfg ≡ some o
      → length i.out_buf ≡ cfg.out_buf_size
      → ((n : ℕ) → HasRespect (row_handler (get_elem? cfg.services n)))
      → Sound (after_all o calls)
  after_all-Sound i o cfg calls e k handlers =
      after_all-Keeps o calls (subst IsSoundIfAny e (init-Sound i cfg k handlers))
