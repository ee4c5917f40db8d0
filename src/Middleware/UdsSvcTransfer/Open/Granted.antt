-- ===== src/Middleware/UdsSvcTransfer/Open/Granted.antt =====
-- A request for a transfer that is in order is granted.
use nx_c_util.Base.{ℕ, ◌≡◌}
use nx_c_util.Middleware.Uds.{done}
use nx_c_util.Middleware.UdsSvcTransfer.{Dir, Xfer, Outcome}
use nx_c_util.Middleware.UdsSvcTransfer.Open.{announce_len}

-- A transfer is under way in a direction, over a region, with the block length of the configuration.
abbrev pub Grants : {M : Type 0} → Xfer M → Dir → (addr size : ℕ) → Outcome M → Type 0
Grants xfer dir addr size o =
    (o.disposition ≡ done)
    × (o.xfer.run.dir ≡ dir)
    × (o.xfer.run.addr ≡ addr)
    × (o.xfer.run.size ≡ size)
    × (o.xfer.run.sent ≡ 0)
    × (o.xfer.run.block_len ≡ announce_len xfer dir)
