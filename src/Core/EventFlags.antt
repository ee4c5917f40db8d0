-- ===== src/Core/EventFlags.antt =====
-- src/core/nx_event_flags.h: a word of 32 flags. The branch with a lock does what the branch without
-- one does, between entering and leaving it; the lock is not represented.
pub mod Laws
mod Tests
use nx_c_util.Base.{ℕ, ◌-◌, ◌^◌, Bool, true, false, not, ◌==◌, if◌then◌else◌, bit_and, bit_or}

-- `nx_event_flags_t`
pub record EventFlags : Type 0 where
  pub bits : ℕ

-- `~mask` on 32 bits
abbrev pub complement : ℕ → ℕ
complement mask = 2 ^ 32 - 1 - mask

-- `nx_event_flags_init`
pub init : EventFlags
init = record { bits = 0 }

-- `nx_event_flags_set`
pub raise : EventFlags → ℕ → EventFlags
raise ef mask = record { bits = bit_or ef.bits mask }

-- `nx_event_flags_clear`
pub clear : EventFlags → ℕ → EventFlags
clear ef mask = record { bits = bit_and ef.bits (complement mask) }

-- `nx_event_flags_test`
pub test : EventFlags → ℕ → Bool
test ef mask = not (bit_and ef.bits mask == 0)

-- `nx_event_flags_test_all`
pub test_all : EventFlags → ℕ → Bool
test_all ef mask = bit_and ef.bits mask == mask

-- `nx_event_flags_take`
pub take : EventFlags → ℕ → Bool × EventFlags
take ef mask =
    let raised = not (bit_and ef.bits mask == 0) in
    (raised, if raised then record { bits = bit_and ef.bits (complement mask) } else ef)

-- `nx_event_flags_get`
pub get : EventFlags → ℕ
get ef = ef.bits
