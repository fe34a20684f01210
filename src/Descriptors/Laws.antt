-- ===== src/Descriptors/Laws.antt =====
-- What the words of a descriptor keep.
use vcaslib.Common.{ℕ, ◌+◌, ◌^◌, ◌≤◌, ◌<◌, ◌≡◌, false, ◌==◌, if◌then◌else◌, arith}
use vcaslib.Descriptors.{
  unpack_seq, unpack_tid, tag_new, last_tid, mutables_new, all_frozen, state_of, write_state,
  write_all_frozen, renew, in_progress,
}

-- A tag keeps the thread and the sequence number that it is made of, and a word of 64 bits has room
-- for it as long as the sequence number stays below its 48 bits.
pub tag_new-unpack :
    (tid mutables : ℕ)
    → tid ≤ last_tid
    → (unpack_tid (tag_new tid mutables) ≡ tid)
      × (unpack_seq (tag_new tid mutables) ≡ unpack_seq mutables)
      × (unpack_seq mutables < 2 ^ 48 → tag_new tid mutables < 2 ^ 64)
unfolding tag_new
tag_new-unpack tid mutables h = (omega arith, omega arith, λ l. omega arith)

-- Writing the state keeps the sequence number and allFrozen. It gives the field its value where the
-- sequence number is the one of the operation, and leaves the word as it is otherwise.
pub write_state-fields :
    (mutables snap val : ℕ)
    → val ≤ 2
    → (unpack_seq (write_state mutables snap val) ≡ unpack_seq mutables)
      × (all_frozen (write_state mutables snap val) ≡ all_frozen mutables)
      × (state_of (write_state mutables snap val)
          ≡ (if unpack_seq mutables == unpack_seq snap then val else state_of mutables))
unfolding write_state
write_state-fields mutables snap val h = ground arith

pub write_all_frozen-fields :
    (mutables snap : ℕ)
    → (unpack_seq (write_all_frozen mutables snap) ≡ unpack_seq mutables)
      × (state_of (write_all_frozen mutables snap) ≡ state_of mutables)
unfolding write_all_frozen
write_all_frozen-fields mutables snap = ground arith

-- A new descriptor has the next sequence number but one and is in progress, up to the end of the 48
-- bits.
pub renew-fields :
    (mutables : ℕ)
    → unpack_seq mutables + 2 < 2 ^ 48
    → (unpack_seq (renew mutables) ≡ unpack_seq mutables + 2)
      × (state_of (renew mutables) ≡ in_progress)
      × (all_frozen (renew mutables) ≡ false)
unfolding renew mutables_new
renew-fields mutables h = ground arith
