-- ===== src/Core/EventFlags/Tests.antt =====
-- Runs of nx_event_flags.h at concrete inputs, and the theorems about it at such inputs.
use Prim.Native.Nat.{max, min}
use nx_c_util.Base.{ℕ, ◌↔◌, ◌-◌, ◌^◌, ◌<◌, ◌≡◌, refl, arith, true, false}
use nx_c_util.Core.EventFlags.{EventFlags, init, raise, clear, test, test_all, take, get}
use nx_c_util.Core.EventFlags.Laws.{
  bit, raise-clear_bits, take_lem, test_all_bits, AllRaised, NoneRaised,
}

abbrev flags : EventFlags
flags = record { bits = 0b1011 }

runs :
    (get (raise init 0b11) ≡ 0b11)
    × (get (clear flags 0b110) ≡ 0b1001)
    × (test_all flags 0b101 ≡ false)
    × (take flags 0b110 ≡ (true, record { bits = 0b1001 }))
unfolding init raise clear test_all take get
runs = (refl, refl, refl, refl)

raise-clear_bits_example :
    (bit 2 (get (raise flags 6)) ≡ max (bit 2 (get flags)) (bit 2 6))
    × (bit 2 (get (clear flags 6)) ≡ min (bit 2 (get flags)) (1 - bit 2 6))
    × (get (raise flags 6) < 2 ^ 32)
    × (get (clear flags 6) < 2 ^ 32)
raise-clear_bits_example = raise-clear_bits flags 6 2 (omega arith) (omega arith)

take_lem_example :
    let (raised, ef') = take flags 6 in
    (raised ≡ test flags 6)
    × (test ef' 6 ≡ false)
    × (take ef' 6 ≡ (false, ef'))
    × ((i : ℕ) → i < 32 → bit i (get ef') ≡ min (bit i (get flags)) (1 - bit i 6))
take_lem_example = take_lem flags 6 (omega arith)

test_all_bits_example :
    ((test_all flags 0b11 ≡ true) ↔ AllRaised flags 0b11)
    × ((test flags 0b11 ≡ false) ↔ NoneRaised flags 0b11)
test_all_bits_example = test_all_bits flags 0b11 (omega arith)
