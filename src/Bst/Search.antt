-- ===== src/Bst/Search.antt =====
-- The way down the tree: `find`, `contains`, and the search phases of insertion and deletion.
pub mod Laws
use vcaslib.Common.{
  ℕ, zero, suc, ◌≡◌, Bool, true, false, not, Option, none, some, if◌then◌else◌, ◌==◌, ltb,
}
use vcaslib.Rq.{Ptr, null}
use vcaslib.Bst.{Store, left_of, right_of, read}

infixl 5 ◌>>=◌
abbrev pub ◌>>=◌ {ℓ κ} : {A : Type ℓ} {B : Type κ} → Option A → (A → Option B) → Option B
none >>= f = none
some a >>= f = f a

-- Where a search stands: the last three nodes of its path.
pub record Place : Type 0 where
  pub grandparent : Ptr
  pub parent : Ptr
  pub leaf : Ptr

-- The loop that goes down to a leaf. Insertion and `find` keep two nodes, deletion three.
unfoldable pub descend : ℕ → Store → (key : ℕ) → (gp p l : Ptr) → Option (Store × Place)
descend zero s key gp p l = none
descend (suc n) s key gp p l =
    let (s1, below) = read s (left_of l) in
    let side = if ltb key (s.key l) then left_of l else right_of l in
    let (s2, child) = read s1 side in
    let rest = descend n s2 key p l child in
    if below == null then some (s1, record { grandparent = gp; parent = p; leaf = l }) else rest

module _ (no_value : ℕ) (root : Ptr) where
  -- `find`: the value, or NO_VALUE, and whether the key is there. Its assertion that the nodes it
  -- passes do not have NO_KEY is left out.
  unfoldable pub find : ℕ → Store → (key : ℕ) → Option (Store × (ℕ × Bool))
  unfolding descend
  find n s key =
      let (s1, p) = read s (left_of root) in
      let (s2, l) = read s1 (left_of p) in
      if l == null then some (s2, (no_value, false)) else (do
        (s3, place) ← descend n s2 key root p l
        some (
            if key == s3.key place.leaf
            then (s3, (s3.value place.leaf, true))
            else (s3, (no_value, false))))

  -- `contains`
  unfoldable pub contains : ℕ → Store → (key : ℕ) → Option (Store × Bool)
  unfolding find
  contains n s key = do (s', (_, present)) ← find n s key; some (s', present)

-- The search phase of insertion: the first leaf may be the child of the root.
unfoldable pub seek : (root : Ptr) → ℕ → Store → (key : ℕ) → Option (Store × Place)
unfolding descend
seek root n s key =
    let (s1, l) = read s (left_of root) in
    let (s2, below) = read s1 (left_of l) in
    let (s3, first) = read s2 (left_of l) in
    if below == null
    then some (s2, record { grandparent = root; parent = root; leaf = l })
    else descend n s3 key root l first
