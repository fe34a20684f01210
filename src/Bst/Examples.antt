-- ===== src/Bst/Examples.antt =====
-- A memory that holds one key, the properties there, and runs of the operations.
use vcaslib.Common.{
  ℕ, ◌≡◌, ◌≢◌, inl, inr, refl, Bool, true, false, not, Option, none, some, List, [], ◌∷◌,
  if◌then◌else◌, ◌==◌, arith,
}
use vcaslib.Rq.{Ptr, Mem, at}
use vcaslib.Rq.Sequential.{read_addr, write_addr}
use vcaslib.Bst.{Store, ScxRecord}
use vcaslib.Bst.Llx.{scx}
use vcaslib.Bst.Llx.Alone.{Committed, Finished, scx-alone}
use vcaslib.Bst.Llx.Settled.{Settled}
use vcaslib.Bst.Search.{find, ◌>>=◌}
use vcaslib.Bst.Update.{do_insert, erase}
use vcaslib.Bst.Tidy.{Tidy, find-get, found}
use vcaslib.Bst.Insert.{insert-get, returned, stored}
use vcaslib.Bst.Insert.Grafts.{Fresh}
use vcaslib.Bst.Erase.{erase-get, taken_value}
use vcaslib.Bst.Create.{create, create-Tidy}
use vcaslib.Bst.Range.{Traversal, range_query}
use vcaslib.Bst.Count.{size, debug_key_sum, size-contents}
use vcaslib.Bst.Tree.{Tree, leaf, node, get}

abbrev blank : ScxRecord
blank = record {
  mutables = 2048;
  new_node = 0;
  target = 0;
  nodes_to_freeze = 0;
  nodes = [];
  seen = [];
}

-- Node 2 is the root, node 4 the inner node with NO_KEY (100), node 3 the leaf of key 5.
abbrev small : Store
small = record {
  mem = record {
    timestamp = 1;
    field = λ a. if a == 4 then 4 else if a == 8 then 3 else if a == 9 then 1 else 0;
    ts = λ p. at 0;
    nextv = λ p. 0;
  };
  key = λ p. if p == 3 then 5 else 100;
  value = λ p. if p == 3 then 50 else 101;
  scx_record = λ p. 2044;
  marked = λ p. false;
  records = λ t. if t == 1022 then record blank { mutables = 3 } else blank;
}

abbrev small_tree : Tree
small_tree = node 4 100 (leaf 3 5 50) (leaf 1 100 101)

small-Settled : (y : Ptr) → Settled small y
small-Settled y = record { unmarked = refl; past = omega arith; done = λ e. inl refl }

small-Tidy : Tidy 100 2 small small_tree
small-Tidy = record {
  shows = (
    refl,
    omega arith,
    refl,
    (refl, omega arith, refl, refl, refl),
    (refl, omega arith, refl, refl, refl),
  );
  rooted = (refl, omega arith, refl);
  ordered = (λ x i. ground arith, λ x i. ground arith, tt, tt);
  distinct = λ y. ground arith;
  settled = λ y i. small-Settled y;
  root_node = omega arith;
  dummy = refl;
}

small-Fresh : Fresh 5 6 2 small_tree
small-Fresh = record {
  not_null0 = omega arith;
  not_null1 = omega arith;
  differ = omega arith;
  new0 = refl;
  new1 = refl;
}

find-get_example :
    (m : Mem) × (find 101 2 3 small 5
      ≡ some (record small { mem = m }, found 101 (get 100 small_tree 5)))
    × (m.field ≡ small.mem.field)
find-get_example = find-get 100 2 small 101 3 5 small_tree small-Tidy (omega arith) (omega arith)

insert-get_example :
    (s' : Store) × (u' : Tree) × (do_insert 100 101 2 0 1 3 small 5 6 7 70 false
      ≡ some (s', returned 101 false 70 (get 100 small_tree 7)))
    × Tidy 100 2 s' u'
    × ((y : ℕ)
        → y ≢ 100
        → get 100 u' y ≡ (
            if y == 7 then some (stored false 70 (get 100 small_tree 7)) else get 100 small_tree y))
insert-get_example =
    insert-get 100 101 2 0 0 3 small small_tree 5 6 7 70 false small-Tidy small-Fresh
      (omega arith, omega arith) (omega arith) (omega arith)

erase-get_example :
    (s' : Store) × (u' : Tree) × (erase 100 101 2 0 1 3 small 5 5
      ≡ some (
        s',
        taken_value 101 (get 100 small_tree 5),
        not (taken_value 101 (get 100 small_tree 5) == 101),
      ))
    × Tidy 100 2 s' u'
    × ((y : ℕ) → y ≢ 100 → get 100 u' y ≡ (if y == 5 then none else get 100 small_tree y))
erase-get_example =
    erase-get 100 101 2 0 0 3 small small_tree 5 5 small-Tidy (omega arith) refl
      (omega arith, omega arith) (omega arith) (omega arith)

scx-alone_example :
    (s' : Store) × (scx small 0 (4 ∷ 3 ∷ []) (2044 ∷ []) 1 8 5 ≡ (s', true))
    × (Committed small s' 0 (4 ∷ 3 ∷ []) 1 8 5)
    × Finished small s' 0 (4 ∷ 3 ∷ []) (2044 ∷ []) 1
scx-alone_example =
    scx-alone small 0 (4 ∷ 3 ∷ []) (2044 ∷ []) 1 8 5 (omega arith) (omega arith) (omega arith)
      (omega arith) (λ j l. inr (let z : j ≡ 0 = omega (arith, l) in rw z refl)) refl (omega arith)

create-Tidy_example : Tidy 100 2 (create 100 101 4 small 1 2) (leaf 1 100 101)
create-Tidy_example = create-Tidy 100 101 4 small 1 2 (omega arith) (omega arith) (omega arith)

size-contents_example : (size 2 3 small ≡ some 1) × (debug_key_sum 2 3 small ≡ some 5)
size-contents_example = size-contents 100 2 3 small small_tree small-Tidy (omega arith)

abbrev value_at : Store → ℕ → List (ℕ × Bool) → List (ℕ × Bool)
value_at s key rest = elim (find 101 2 4 s key) [ none ↦ rest | some p ↦ p.1 ∷ rest ]

-- What is found of the keys 5 and 7.
abbrev values : Option Store → List (ℕ × Bool)
values none = []
values (some s) = value_at s 5 (value_at s 7 [])

abbrev inserted : Option Store
inserted = do q ← do_insert 100 101 2 0 1 3 small 5 6 7 70 false; some q.0

abbrev erased : Option Store
erased = do s ← inserted; q ← erase 100 101 2 1 1 4 s 7 5; some q.0

abbrev results : Option Traversal → List ℕ
results none = []
results (some q) = q.size ∷ q.results.keys

values-inserted : values inserted ≡ (50, true) ∷ (70, true) ∷ []
unfolding find do_insert read_addr write_addr
values-inserted = refl

values-erased : values erased ≡ (101, false) ∷ (70, true) ∷ []
unfolding find do_insert erase read_addr write_addr
values-erased = refl

-- The keys from 3 to 6, and those from 5 to 9, in the order of the keys, after their number.
abbrev query : Store → (lo hi : ℕ) → List ℕ
query s lo hi = results (
    range_query 100 2 10 4 3 20 1 s (record { cells = 0 ∷ 0 ∷ 0 ∷ 0 ∷ []; size = 0 })
      (record { keys = 0 ∷ 0 ∷ []; values = 0 ∷ 0 ∷ [] }) lo hi)

abbrev queries : Option Store → List (List ℕ)
queries none = []
queries (some s) = query s 3 6 ∷ query s 5 9 ∷ []

queries-inserted : queries inserted ≡ (1 ∷ 5 ∷ 0 ∷ []) ∷ (2 ∷ 5 ∷ 7 ∷ []) ∷ []
unfolding range_query do_insert read_addr write_addr
queries-inserted = refl
