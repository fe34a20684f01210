-- ===== src/Bst/Update.antt =====
-- Insertion and deletion of bst/vcas_bst_impl.h: a search, LLXs of the nodes that change, and an
-- SCX. An attempt returns `none` for `false`, which makes the caller try again.
use vcaslib.Common.{
  ℕ, zero, suc, Bool, not, ◌||◌, Option, none, some, [], ◌∷◌, if◌then◌else◌, ◌==◌, ltb,
}
use vcaslib.Rq.{Ptr, Addr, null}
use vcaslib.Bst.{Store, left_of, right_of, read, initialize_node}
use vcaslib.Bst.Llx.{Llx, failed, is_leaf, linked, seen_of, llx, scx}
use vcaslib.Bst.Search.{◌>>=◌, descend, seek}

-- An LLX of `p`, and the test that one of the children it returns is `child`; the results are the
-- value to keep, the children, and the address that holds `child`.
pub record Family : Type 0 where
  pub seen : ℕ
  pub left : Ptr
  pub right : Ptr

abbrev pub family_of : Llx → Option Family
family_of failed = none
family_of (is_leaf l r) = some (record { seen = seen_of (is_leaf l r); left = l; right = r })
family_of (linked tag l r) = some (record { seen = tag; left = l; right = r })

unfoldable pub llx_parent : Store → (p child : Ptr) → Store × Option Family
unfolding llx
llx_parent s p child =
    let (s', result) = llx s p in
    (
      s',
      elim (family_of result) [
        | none ↦ none
        | some f ↦ if (child == f.left) || (child == f.right) then some f else none
      ],
    )

abbrev pub side_of : Family → (p child : Ptr) → Addr
side_of f p child = if child == f.left then left_of p else right_of p

-- The rest of an attempt: whether the SCX commits, and the result if it does.
abbrev pub outcome : Store × Bool → ℕ → Store × Option ℕ
outcome (s, done) result = (s, if done then some result else none)

-- An attempt goes on where an LLX has not failed.
abbrev pub when_linked :
    Store × Option Family → (Store → Family → Store × Option ℕ) → Store × Option ℕ
when_linked (s, none) next = (s, none)
when_linked (s, some f) next = next s f

module _ (no_key no_value : ℕ) (root : Ptr) (tid : ℕ) where
  -- An insertion that finds its key at the leaf `l`: a new leaf takes its place.
  unfoldable pub replace_leaf : Store → (n0 p l : Ptr) → (key val : ℕ) → Store × Option ℕ
  unfolding llx_parent initialize_node scx
  replace_leaf s n0 p l key val = when_linked (llx_parent s p l) (λ s1 f.
      let s2 = initialize_node s1 n0 key val null null in
      outcome (scx s2 tid (p ∷ l ∷ []) (f.seen ∷ []) 1 (side_of f p l) n0) (s1.value l))

  -- Otherwise a new internal node takes its place, with the new leaf and `l` below it.
  unfoldable pub split_leaf : Store → (n0 n1 p l : Ptr) → (key val : ℕ) → Store × Option ℕ
  unfolding llx_parent initialize_node scx
  split_leaf s n0 n1 p l key val = when_linked (llx_parent s p l) (λ s1 f.
      let s2 = initialize_node s1 n0 key val null null in
      let s3 =
        (if (s2.key l == no_key) || ltb key (s2.key l)
          then initialize_node s2 n1 (s2.key l) (s2.value l) n0 l
          else initialize_node s2 n1 key val l n0) in
      outcome (scx s3 tid (p ∷ l ∷ []) (f.seen ∷ []) 1 (side_of f p l) n1) no_value)

  -- `updateInsert_search_llx_scx`, with the thread's two preallocated nodes
  unfoldable pub try_insert :
      ℕ
      → Store
      → (n0 n1 : Ptr) → (key val : ℕ) → (only_if_absent : Bool) → Option (Store × Option ℕ)
  unfolding seek replace_leaf split_leaf
  try_insert n s n0 n1 key val only_if_absent = do
    (s', place) ← seek root n s key
    some (
        if key == s'.key place.leaf
        then (if only_if_absent
            then (s', some val)
            else replace_leaf s' n0 place.parent place.leaf key val)
        else split_leaf s' n0 n1 place.parent place.leaf key val)

  -- `doInsert`, with `m` attempts
  unfoldable pub do_insert :
      (m n : ℕ)
      → Store
      → (n0 n1 : Ptr) → (key val : ℕ) → (only_if_absent : Bool) → Option (Store × ℕ)
  unfolding try_insert
  do_insert zero n s n0 n1 key val only_if_absent = none
  do_insert (suc m) n s n0 n1 key val only_if_absent = do
    (s', finished) ← try_insert n s n0 n1 key val only_if_absent
    elim finished [
      | some result ↦ some (s', result)
      | none ↦ do_insert m n s' n0 n1 key val only_if_absent
    ]

  -- The end of `updateErase_search_llx_scx`, where the search has found the key at `l`.
  unfoldable pub remove_leaf : Store → (n0 gp p l : Ptr) → Store × Option ℕ
  unfolding llx_parent llx initialize_node scx
  remove_leaf s n0 gp p l = when_linked (llx_parent s gp p) (λ s1 g.
      when_linked (llx_parent s1 p l) (λ s2 f.
        let sibling = if l == f.left then f.right else f.left in
        when_linked ((llx s2 sibling).0, family_of (llx s2 sibling).1)
          (λ s3 below.
            let s4 =
              initialize_node s3 n0 (s3.key sibling) (s3.value sibling) below.left below.right in
            outcome
              (scx s4 tid (gp ∷ p ∷ sibling ∷ l ∷ []) (g.seen ∷ f.seen ∷ below.seen ∷ []) 3
                (side_of g gp p) n0)
              (s2.value l))))

  -- `updateErase_search_llx_scx`, with the thread's preallocated node
  unfoldable pub try_erase : ℕ → Store → (n0 : Ptr) → (key : ℕ) → Option (Store × Option ℕ)
  unfolding descend remove_leaf
  try_erase n s n0 key =
      let (s1, p) = read s (left_of root) in
      let (s2, below) = read s1 (left_of p) in
      let (s3, l) = read s2 (left_of p) in
      if below == null then some (s2, some no_value) else (do
        (s', place) ← descend n s3 key root p l
        some (
            if key == s'.key place.leaf
            then remove_leaf s' n0 place.grandparent place.parent place.leaf
            else (s', some no_value)))

  -- `erase`: the value that was there, or NO_VALUE, and whether it was.
  unfoldable pub erase : (m n : ℕ) → Store → (n0 : Ptr) → (key : ℕ) → Option (Store × ℕ × Bool)
  unfolding try_erase
  erase zero n s n0 key = none
  erase (suc m) n s n0 key = do
    (s', finished) ← try_erase n s n0 key
    elim finished [
      | some result ↦ some (s', result, not (result == no_value))
      | none ↦ erase m n s' n0 key
    ]
