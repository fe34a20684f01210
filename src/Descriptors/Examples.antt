-- ===== src/Descriptors/Examples.antt =====
-- The properties of the descriptors' words at concrete words.
use vcaslib.Common.{◌^◌, ◌<◌, ◌≡◌, true, arith}
use vcaslib.Descriptors.{tag_new, unpack_tid, unpack_seq, write_state, all_frozen, state_of}
use vcaslib.Descriptors.Laws.{tag_new-unpack, write_state-fields}

tag_new-unpack_example :
    (unpack_tid (tag_new 5 6145) ≡ 5)
    × (unpack_seq (tag_new 5 6145) ≡ 3)
    × (unpack_seq 6145 < 2 ^ 48 → tag_new 5 6145 < 2 ^ 64)
tag_new-unpack_example = tag_new-unpack 5 6145 (omega arith)

write_state-fields_example :
    (unpack_seq (write_state 6145 6144 1) ≡ 3)
    × (all_frozen (write_state 6145 6144 1) ≡ true)
    × (state_of (write_state 6145 6144 1) ≡ 1)
write_state-fields_example = write_state-fields 6145 6144 1 (omega arith)
