-- ===== src/Descriptors.antt =====
-- artifact/cpp/descriptors/descriptors_impl.h with the layout that bst/vcas_bst.h gives it: the words
-- that name a descriptor and that hold its mutable fields. From bit 11 on, both have a sequence
-- number of 48 bits; below it, a tag has the thread in bits 1 to 10, and `mutables` has allFrozen in
-- bit 0 and the state in bits 1 and 2. A shift or a mask is written as a division, a product or a
-- remainder, and a disjunction of disjoint fields as a sum.
pub mod Laws
mod Examples
use vcaslib.Common.{
  ℕ, ◌+◌, ◌-◌, ◌*◌, ◌/◌, ◌%◌, ◌^◌, ◌≡◌, Bool, true, false, ◌&&◌, ◌==◌, if◌then◌else◌,
}

-- `1 << OFFSET1_SEQ`
abbrev pub seq_unit : ℕ
seq_unit = 2048

-- `UNPACK1_SEQ`
abbrev pub unpack_seq : ℕ → ℕ
unpack_seq word = word / 2048

-- `TAGPTR1_UNPACK_TID`
abbrev pub unpack_tid : ℕ → ℕ
unpack_tid tag = tag % 2048 / 2

-- `TAGPTR1_NEW`
unfoldable pub tag_new : (tid mutables : ℕ) → ℕ
tag_new tid mutables = unpack_seq mutables * 2048 + tid * 2

-- `LAST_TID1`
abbrev pub last_tid : ℕ
last_tid = 1023

-- `DUMMY_SCXRECORD` and `LLX_RETURN_IS_LEAF`
abbrev pub dummy_tag : ℕ
dummy_tag = 2044

abbrev pub leaf_tag : ℕ
leaf_tag = 2046

-- The states of a descriptor.
abbrev pub in_progress : ℕ
in_progress = 0

abbrev pub committed : ℕ
committed = 1

abbrev pub aborted : ℕ
aborted = 2

-- `MUTABLES1_NEW`: the next sequence number, and all fields 0.
unfoldable pub mutables_new : ℕ → ℕ
mutables_new mutables = mutables / 2048 % 2 ^ 48 * 2048 + 2048

-- `MUTABLES_INIT_DUMMY`
abbrev pub mutables_dummy : ℕ
mutables_dummy = 3

-- `MUTABLES1_UNPACK_FIELD` for the two fields
abbrev pub all_frozen : ℕ → Bool
all_frozen mutables = mutables % 2 == 1

abbrev pub state_of : ℕ → ℕ
state_of mutables = mutables % 8 / 2

-- `MUTABLES1_WRITE_FIELD` for the state, and `MUTABLES1_WRITE_BIT` for allFrozen: the
-- compare-and-swap succeeds when no other thread runs. `snap` is the copy of the word that names the
-- operation.
unfoldable pub write_state : (mutables snap val : ℕ) → ℕ
write_state mutables snap val =
    if unpack_seq mutables == unpack_seq snap
    then (if state_of mutables == val then mutables else mutables / 8 * 8 + mutables % 2 + val * 2)
    else mutables

unfoldable pub write_all_frozen : (mutables snap : ℕ) → ℕ
write_all_frozen mutables snap =
    if unpack_seq mutables == unpack_seq snap
    then (if all_frozen mutables then mutables else mutables + 1)
    else mutables

-- `DESC1_READ_FIELD` for the state: the success bit, and the field.
unfoldable pub read_state : (mutables tag : ℕ) → Bool × ℕ
read_state mutables tag = (unpack_seq mutables == unpack_seq tag, state_of mutables)

-- What `DESC1_NEW` and then `DESC1_INITIALIZED` make of the word.
unfoldable pub renew : ℕ → ℕ
unfolding mutables_new
renew mutables = mutables_new mutables + seq_unit
