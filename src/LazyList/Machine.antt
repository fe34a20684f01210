-- ===== src/LazyList/Machine.antt =====
-- The threads of the lazy list over one store: the constructor's two nodes, the calls, and a step of
-- any thread. `used` marks what the allocator has handed out.
use vcaslib.Common.{ℕ, ◌<◌, ◌≡◌, Bool, true, false, update, if◌then◌else◌, ◌==◌, ◌||◌}
use vcaslib.Rq.{Ptr}
use vcaslib.LazyList.{Nodes, Op, Pc, idle, done, answered, queried, start, seek, enter, link, exec}

pub record System : Type 0 where
  pub heap : Nodes
  pub used : Ptr → Bool
  pub pc : ℕ → Pc

-- Whether the access takes a node from the allocator.
abbrev pub allocates : Pc → Bool
allocates (link v o x p c) = true
allocates _ = false

-- A thread that has no call pending.
abbrev pub at_rest : Pc → Bool
at_rest idle = true
at_rest (done r) = true
at_rest (answered b) = true
at_rest (queried lo hi out) = true
at_rest _ = false

abbrev pub run : (no_value : ℕ) (head : Ptr) → System → (t : ℕ) (n : Ptr) → System
run no_value head s t n =
    let e = exec no_value head (s.pc t) n s.heap in
    record {
      heap = e.0;
      used = if allocates (s.pc t) then update s.used n true else s.used;
      pc = update s.pc t e.1;
    }

abbrev pub call : System → ℕ → Pc → System
call s t p = record s { pc = update s.pc t p }

-- The keys of the calls lie between KEY_MIN, which is the key of `head`, and KEY_MAX.
module _ (max no_value : ℕ) (head : Ptr) where
  pub data Step (s : System) : System → Type 0 where
    access : (t : ℕ) (n : Ptr) → s.used n ≡ false → Step s (run no_value head s t n)
    update_call :
        (t : ℕ) (op : Op) (x : ℕ)
        → at_rest (s.pc t) ≡ true
        → s.heap.key head < x
        → x < max
        → Step s (call s t (start op x))
    contains_call :
        (t x : ℕ)
        → at_rest (s.pc t) ≡ true
        → s.heap.key head < x
        → x < max
        → Step s (call s t (seek x head))
    range_call :
        (t lo hi : ℕ)
        → at_rest (s.pc t) ≡ true
        → lo < max
        → hi < max
        → Step s (call s t (enter lo hi))

-- The constructor: `head` with KEY_MIN, linked to a node with KEY_MAX.
abbrev pub lazylist : (min max : ℕ) (head last : Ptr) → System
lazylist min max head last = record {
  heap = record {
    key = update (λ _. max) head min;
    val = λ _. 0;
    next = update (λ _. 0) head last;
    marked = λ _. false;
    lock = λ _. false;
  };
  used = λ a. (a == head) || (a == last);
  pc = λ _. idle;
}

module _ (min max no_value : ℕ) (head last : Ptr) where
  pub data Reach : System → Type 0 where
    here : Reach (lazylist min max head last)
    later : {s t : System} → Reach s → Step max no_value head s t → Reach t
