-- ===== src/RecordMgr/ArrayList.antt =====
-- recordmgr/arraylist.h: `ArrayList` and the writer's side of `AtomicArrayList`. The array has
-- `capacity` cells, of which the first `size` are in use. `none` is an assertion that fails.
pub mod Laws
use vcaslib.Common.{
  ℕ, ◌+◌, ◌-◌, ◌≤◌, ◌≡◌, Bool, true, false, Option, none, some, List, length, set, if◌then◌else◌,
  ◌==◌, ltb,
}
use vcaslib.Common.Arrays.{get_or, take, index_from}

pub record ArrayList : Type 0 where
  pub size : ℕ
  pub cells : List ℕ
  pub capacity : ℕ

pub record IsValid (l : ArrayList) : Type 0 where
  pub allocated : length l.cells ≡ l.capacity
  pub fits : l.size ≤ l.capacity

-- The constructor: `cells` is the memory that `new` returns, as it comes.
unfoldable pub create : (capacity : ℕ) → List ℕ → ArrayList
create capacity cells = record { size = 0; cells = cells; capacity = capacity }

-- What the list holds, oldest first.
abbrev pub items : ArrayList → List ℕ
items l = take l.size l.cells

unfoldable pub get : ArrayList → ℕ → ℕ
get l ix = get_or l.cells ix 0

unfoldable pub add : ArrayList → ℕ → Option ArrayList
add l obj =
    if ltb l.size l.capacity
    then some (record l { cells = set l.cells l.size obj; size = l.size + 1 })
    else none

-- `erase(const int ix)` of `ArrayList`, and of `AtomicArrayList`, which tests for the last cell.
unfoldable pub erase_at : ArrayList → ℕ → Option ArrayList
erase_at l ix =
    if ltb ix l.size
    then some
        (record l { cells = set l.cells ix (get_or l.cells (l.size - 1) 0); size = l.size - 1 })
    else none

unfoldable pub atomic_erase_at : ArrayList → ℕ → Option ArrayList
atomic_erase_at l ix =
    if ltb ix l.size
    then some (record l {
      cells = if ix == l.size - 1 then l.cells else set l.cells ix (get_or l.cells (l.size - 1) 0);
      size = l.size - 1;
    })
    else none

-- `getIndex`, with `none` for -1
unfoldable pub get_index : ArrayList → ℕ → Option ℕ
unfolding index_from
get_index l obj = index_from l.cells l.size obj 0

-- `erase(T * const obj)`
unfoldable pub erase : ArrayList → ℕ → Option ArrayList
unfolding get_index erase_at
erase l obj = elim (get_index l obj) [ none ↦ some l | some ix ↦ erase_at l ix ]

unfoldable pub contains : ArrayList → ℕ → Bool
unfolding get_index
contains l obj = elim (get_index l obj) [ none ↦ false | some ix ↦ true ]

unfoldable pub clear : ArrayList → ArrayList
clear l = record l { size = 0 }

unfoldable pub is_full : ArrayList → Bool
is_full l = l.size == l.capacity

unfoldable pub is_empty : ArrayList → Bool
is_empty l = l.size == 0
