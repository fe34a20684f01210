-- ===== src/Bst/Insert/Trees.antt =====
-- The tree that an insertion of an absent key makes of a leaf, and what is found in it.
use vcaslib.Common.{
  ℕ, ◌+◌, ◌≤◌, ◌≡◌, ◌≢◌, inl, inr, refl, ap, true, false, ◌||◌, some, List, if◌then◌else◌, ◌==◌,
  ltb, ==→≡, Bool-cases, arith,
}
use vcaslib.Common.Arrays.{count, one_if}
use vcaslib.Rq.{Ptr}
use vcaslib.Bst.Tree.{Tree, leaf, node, top, goes_left, get}

-- The tree of a new leaf, the leaf that was there, and the new node over them.
abbrev pub split_tree : (no_key : ℕ) → (n0 n1 l : Ptr) → (x val c v : ℕ) → Tree
split_tree no_key n0 n1 l x val c v =
    if (c == no_key) || ltb x c
    then node n1 c (leaf n0 x val) (leaf l c v)
    else node n1 x (leaf l c v) (leaf n0 x val)

pub split_tree-top :
    (no_key : ℕ) (n0 n1 l : Ptr) (x val c v : ℕ) → top (split_tree no_key n0 n1 l x val c v) ≡ n1
split_tree-top no_key n0 n1 l x val c v = elim (Bool-cases ((c == no_key) || ltb x c)) [
  | inl e ↦ rw e refl
  | inr e ↦ rw e refl
]

pub count_new :
    (n y : ℕ) (ps : List ℕ) → count n ps ≡ 0 → count y ps ≤ 1 → count y ps + one_if (y == n) ≤ 1
count_new n y ps z h = elim (Bool-cases (y == n)) [
  | inl e ↦ rw e (omega (arith, ap (λ m. count m ps) (==→≡ y n e), z))
  | inr e ↦ rw e (omega (arith, h))
]

pub both_new :
    (n0 n1 y : ℕ) (ps : List ℕ)
    → n0 ≢ n1
    → count n0 ps ≡ 0
    → count n1 ps ≡ 0
    → count y ps ≤ 1
    → count y ps + (one_if (y == n1) + one_if (y == n0)) ≤ 1
both_new n0 n1 y ps d z0 z1 h = elim (Bool-cases (y == n1)) [
  | inl e ↦
      let e' : y ≡ n1 = ==→≡ y n1 e in
      let f : (y == n0) ≡ false = ground (arith, e', d) in
      rw (e, f) (omega (arith, ap (λ m. count m ps) e', z1))
  | inr e ↦ rw e (omega (arith, count_new n0 y ps z0 h))
]

pub get-leaf :
    (no_key : ℕ) (n0 l : Ptr) (x val v y c : ℕ)
    → (x == c) ≡ true
    → get no_key (leaf n0 x val) y ≡ (if y == x then some val else get no_key (leaf l c v) y)
unfolding get
get-leaf no_key n0 l x val v y c e = elim (Bool-cases (y == x)) [
  | inl d ↦ rw d refl
  | inr d ↦ let f : (y == c) ≡ false = ground arith in rw (d, f) refl
]

pub get-split :
    (no_key : ℕ) (n0 n1 l : Ptr) (x val c v y : ℕ)
    → x ≢ no_key
    → y ≢ no_key
    → (x == c) ≡ false
    → get no_key (split_tree no_key n0 n1 l x val c v) y
      ≡ (if y == x then some val else get no_key (leaf l c v) y)
unfolding get
get-split no_key n0 n1 l x val c v y hx hy e = elim (Bool-cases ((c == no_key) || ltb x c)) [
  | inl g ↦ elim (Bool-cases (goes_left no_key y c)) [
    | inl d ↦ let f : (y == c) ≡ false = ground arith in rw (g, d, f) refl
    | inr d ↦ let f : (y == x) ≡ false = ground arith in rw (g, d, f) refl
  ]
  | inr g ↦ elim (Bool-cases (goes_left no_key y x)) [
    | inl d ↦ let f : (y == x) ≡ false = ground arith in rw (g, d, f) refl
    | inr d ↦ let f : (y == c) ≡ false = ground arith in rw (g, d, f) refl
  ]
]
