-- ===== src/Bst/Llx/Settled.antt =====
-- LLX where a node is settled: no operation is under way at it.
use vcaslib.Common.{
  ◌/◌, ◌%◌, ◌≤◌, ◌≡◌, ◌⊎◌, inl, inr, refl, ap, ◌∙◌, true, false, not, ◌&&◌, ◌||◌, if◌then◌else◌,
  ◌==◌, ==-refl, Bool-cases, arith,
}
use vcaslib.Rq.{Ptr, Addr, Mem}
use vcaslib.Rq.Sequential.{read_addr}
use vcaslib.Rq.Sequential.Laws.{stamp_head-field}
use vcaslib.Descriptors.{unpack_seq, unpack_tid, committed, aborted, state_of, read_state}
use vcaslib.Bst.{Store, left_of, right_of}
use vcaslib.Bst.Llx.{Llx, is_leaf, linked, llx, llx_read}

-- No operation is under way at a node.
pub record Settled (s : Store) (p : Ptr) : Type 0 where
  pub unmarked : s.marked p ≡ false
  pub past :
      unpack_seq (s.scx_record p) ≤ unpack_seq (s.records (unpack_tid (s.scx_record p))).mutables
  pub done :
      unpack_seq (s.records (unpack_tid (s.scx_record p))).mutables ≡ unpack_seq (s.scx_record p)
      → (state_of (s.records (unpack_tid (s.scx_record p))).mutables ≡ committed)
        ⊎ (state_of (s.records (unpack_tid (s.scx_record p))).mutables ≡ aborted)

pub read-field : (m : Mem) (a : Addr) → (read_addr m a).0.field ≡ m.field
unfolding read_addr
read-field m a = stamp_head-field m (m.field a)

pub read-result : (m : Mem) (a : Addr) → (read_addr m a).1 ≡ m.field a
unfolding read_addr
read-result m a = refl

-- What LLX returns for a settled node.
unfoldable pub llx_value : Store → Ptr → Llx
llx_value s p =
    if s.mem.field (left_of p) == 0
    then is_leaf (s.mem.field (left_of p)) (s.mem.field (right_of p))
    else linked (s.scx_record p) (s.mem.field (left_of p)) (s.mem.field (right_of p))

llx_read-alone :
    (s : Store) (p : Ptr)
    → (m : Mem) × (m.field ≡ s.mem.field)
      × (llx_read s p (s.scx_record p) ≡ (record s { mem = m }, llx_value s p))
unfolding llx_read llx_value
llx_read-alone s p =
    let m1 = (read_addr s.mem (left_of p)).0 in
    let m2 = (read_addr m1 (right_of p)).0 in
    let e1 = read-field s.mem (left_of p) in
    let r : (read_addr m1 (right_of p)).1 ≡ s.mem.field (right_of p) =
      read-result m1 (right_of p) ∙ ap (λ f. f (right_of p)) e1 in
    (
      m2,
      read-field m1 (right_of p) ∙ e1,
      rw (read-result s.mem (left_of p), r, ==-refl (s.scx_record p))
          (elim (Bool-cases (s.mem.field (left_of p) == 0)) [
            | inl z ↦ rw z refl
            | inr z ↦ rw z refl
          ]),
    )

pub llx-alone :
    (s : Store) (p : Ptr)
    → Settled s p
    → (m : Mem) × (m.field ≡ s.mem.field) × (llx s p ≡ (record s { mem = m }, llx_value s p))
unfolding llx read_state
llx-alone s p h =
    let tag = s.scx_record p in
    let word = (s.records (unpack_tid tag)).mutables in
    let state = if unpack_seq word == unpack_seq tag then state_of word else committed in
    let e : (state ≡ committed) ⊎ (state ≡ aborted) = ground (arith, h.done) in
    let c : (((state % 2 == 1) && not (s.marked p)) || (state / 2 % 2 == 1)) ≡ true = elim e [
      | inl z ↦ rw (z, h.unmarked) refl
      | inr z ↦ rw z refl
    ] in
    let (m, e, r) = llx_read-alone s p in (m, e, rw c r)
