-- ===== src/LazyList/Good.antt =====
-- What a thread knows of the store at each of its steps, and which locks it holds.
use vcaslib.Common.{ℕ, suc, ◌≤◌, ◌<◌, ◌≡◌, Bool, true, false, ◌||◌, List, [], ◌∷◌, ◌==◌}
use vcaslib.Rq.{Ptr}
use vcaslib.LazyList.{
  Nodes, Op, put, del, Pc, queried, start, walk, lock_pred, lock_curr, test_pred, test_curr,
  test_link, retry_curr, retry_pred, recheck, peek, grab, fetch, store, link, take, after, mark,
  unlink, free_curr, free_pred, seek, check, enter, skip, scan, advance,
}
use vcaslib.LazyList.Known.{known}

abbrev pub holds : Pc → Ptr → Bool
holds (lock_curr x p c) a = a == p
holds (test_pred (put v o) x p c) a = a == p
holds (test_pred del x p c) a = (a == p) || (a == c)
holds (test_curr (put v o) x p c) a = a == p
holds (test_curr del x p c) a = (a == p) || (a == c)
holds (test_link (put v o) x p c) a = a == p
holds (test_link del x p c) a = (a == p) || (a == c)
holds (retry_curr x p c) a = (a == p) || (a == c)
holds (retry_pred op x p) a = a == p
holds (recheck v o x p c) a = a == p
holds (peek x p c) a = a == p
holds (grab v x p c) a = a == p
holds (fetch v x p c) a = (a == p) || (a == c)
holds (store v x p c r) a = (a == p) || (a == c)
holds (link v o x p c) a = a == p
holds (take x p c) a = (a == p) || (a == c)
holds (after x p c r) a = (a == p) || (a == c)
holds (mark x p c r next) a = (a == p) || (a == c)
holds (unlink p c r next) a = (a == p) || (a == c)
holds (free_curr p c r) a = (a == p) || (a == c)
holds (free_pred p r) a = a == p
holds _ a = false

-- The results of a range query, newest first: their keys fall, from below `k` on, and lie in the
-- range.
abbrev pub Falling : (lo hi k : ℕ) → List (ℕ × ℕ) → Type 0
Falling lo hi k [] = Unit
Falling lo hi k ((a, b) ∷ rest) = (a < k) × (lo ≤ a) × (a ≤ hi) × Falling lo hi a rest

module _ (max : ℕ) (head : Ptr) (h : Nodes) (chain : List Ptr) where
  abbrev pub Arg : ℕ → Type 0
  Arg x = (h.key head < x) × (x < max)

  abbrev pub Known : Ptr → Type 0
  Known n = known head h chain n ≡ true

  -- The two nodes of a search for `x`.
  abbrev pub Between : Op → (x : ℕ) → (p c : Ptr) → Type 0
  Between (put v o) x p c =
      (h.key head < x) × (x < max) × Known p × Known c × (h.key p < x) × (x ≤ h.key c)
  Between del x p c =
      (h.key head < x) × (x < max) × Known p × Known c × (h.key p < x) × (h.key c ≡ x)

  abbrev pub Sure : Op → Ptr → Type 0
  Sure (put v o) c = Unit
  Sure del c = h.marked c ≡ false

  -- After `validateLinks`: linked, with the key between them, and then found.
  abbrev pub Held : (x : ℕ) → (p c : Ptr) → Type 0
  Held x p c =
      Known p
      × Known c
      × (h.marked p ≡ false)
      × (h.next p ≡ c)
      × (h.key p < x)
      × (x < max)
      × (h.key head < x)

  abbrev pub Found : (x : ℕ) → (p c : Ptr) → Type 0
  Found x p c = (Held x p c) × (h.key c ≡ x) × (h.marked c ≡ false)

  abbrev pub Good : Pc → Type 0
  Good (start op x) = Arg x
  Good (walk op x p c) = (h.key head < x) × (x < max) × Known p × Known c × (h.key p < x)
  Good (lock_pred op x p c) = Between op x p c
  Good (lock_curr x p c) = Between del x p c
  Good (test_pred op x p c) = Between op x p c
  Good (test_curr op x p c) = (Between op x p c) × (h.marked p ≡ false)
  Good (test_link op x p c) = (Between op x p c) × (h.marked p ≡ false) × (Sure op c)
  Good (retry_curr x p c) = (h.key head < x) × (x < max) × ((c == p) ≡ false)
  Good (retry_pred op x p) = Arg x
  Good (recheck v o x p c) = (Held x p c) × (h.key c ≡ x)
  Good (peek x p c) = Found x p c
  Good (grab v x p c) = Found x p c
  Good (fetch v x p c) = Found x p c
  Good (store v x p c r) = (Found x p c) × (h.val c ≡ r)
  Good (link v o x p c) = (Held x p c) × (x < h.key c)
  Good (take x p c) = Found x p c
  Good (after x p c r) = (Found x p c) × (h.val c ≡ r)
  Good (mark x p c r next) = (Found x p c) × (h.val c ≡ r) × (h.next c ≡ next)
  Good (unlink p c r next) =
      Known p
      × (h.marked p ≡ false)
      × (h.next p ≡ c)
      × (h.marked c ≡ true)
      × (h.next c ≡ next)
      × (h.key c < max)
      × (h.key p < max)
  Good (free_curr p c r) = (c == p) ≡ false
  Good (seek x c) = (h.key head < x) × (x < max) × Known c
  Good (check x c) = (h.key head < x) × (x < max) × Known c × (h.key c ≡ x)
  Good (enter lo hi) = (lo < max) × (hi < max)
  Good (skip lo hi c) = (lo < max) × (hi < max) × Known c
  Good (scan lo hi c out) = (hi < max) × Known c × (lo ≤ h.key c) × Falling lo hi (h.key c) out
  Good (advance lo hi c out) =
      (hi < max) × Known c × (lo ≤ h.key c) × (h.key c ≤ hi) × Falling lo hi (suc (h.key c)) out
  Good (queried lo hi out) = Falling lo hi max out
  Good _ = Unit
