-- ===== src/LazyList/Examples.antt =====
-- Runs of the list of artifact/cpp/lazylist with three threads: thread 0 puts 7 under key 5, and has
-- key 6 still to link when thread 1 comes to erase key 5 and waits for its lock. Then all go on, and
-- thread 2 asks for a range.
use vcaslib.Common.{
  ℕ, ◌≤◌, ◌<◌, ◌≡◌, ◌⊎◌, refl, inl, inr, subst, ◌==◌, ==→≡, Bool-cases, Option, Bool, true, false,
  List, [], ◌∷◌, arith,
}
use vcaslib.Rq.{Ptr}
use vcaslib.LazyList.{
  Nodes, start, enter, put, del, walk, link, lock_curr, done, answered, queried, arrive, exec,
}
use vcaslib.LazyList.Alone.{Goes}
use vcaslib.LazyList.Alone.Laws.{answer, outcome, update_alone}
use vcaslib.LazyList.Alone.Queries.{lookup, ranged, range_alone}
use vcaslib.LazyList.Machine.{
  at_rest, System, run, Reach, here, later, access, update_call, contains_call, range_call,
}
use vcaslib.LazyList.Chain.{Links}
use vcaslib.LazyList.Known.{known}
use vcaslib.LazyList.Good.{Falling, holds}
use vcaslib.LazyList.Effects.{contents}
use vcaslib.LazyList.Laws.{Shows, list_ordered, list_exclusive, queries_ordered, search_advances}

-- KEY_MIN is 0, KEY_MAX is 9; nodes 0 and 1 are the constructor's.
abbrev From : Type 0
From = (s : System) × Reach 0 9 0 0 1 s

-- Accesses of a thread, each with the node that it would be given.
abbrev if_free : (b : Bool) → (b ≡ false → From) → From → From
if_free true go f = f
if_free false go f = go refl

abbrev turns : From → (t : ℕ) → List Ptr → From
turns f t [] = f
turns (s, r) t (n ∷ ns) =
    turns (if_free (s.used n) (λ e. (run 0 0 s t n, later r (access t n e))) (s, r)) t ns

abbrev called : From
called = (_, later here (update_call 0 (put 7 false) 5 refl (omega arith) (omega arith)))

abbrev first : From
unfolding exec
first = turns called 0 (2 ∷ 2 ∷ 2 ∷ 2 ∷ 2 ∷ 2 ∷ 2 ∷ 3 ∷ [])

first_done : first.0.pc 0 ≡ done 0
unfolding exec
first_done = refl

-- Thread 0 holds node 2 and has key 6 to link.
abbrev searching : From
unfolding exec
searching =
    turns (_, later first.1 (update_call 0 (put 8 false) 6 refl (omega arith) (omega arith))) 0
      (3 ∷ [])

abbrev linking : From
unfolding exec
linking = turns searching 0 (3 ∷ 3 ∷ 3 ∷ 3 ∷ 3 ∷ 3 ∷ [])

linking_at : linking.0.pc 0 ≡ link 8 false 6 2 1
unfolding exec
linking_at = refl

-- Thread 1 has locked `head` and waits for node 2.
abbrev waiting : From
unfolding exec
waiting =
    turns (_, later linking.1 (update_call 1 del 5 refl (omega arith) (omega arith))) 1
      (3 ∷ 3 ∷ 3 ∷ 3 ∷ 3 ∷ [])

waiting_at : waiting.0.pc 1 ≡ lock_curr 5 0 2
unfolding exec
waiting_at = refl

-- Both go on to their ends, and thread 2 then finds key 6 alone.
abbrev finished : From
unfolding exec
finished = turns (turns waiting 0 (3 ∷ 4 ∷ [])) 1 (4 ∷ 4 ∷ 4 ∷ 4 ∷ 4 ∷ 4 ∷ 4 ∷ 4 ∷ 4 ∷ 4 ∷ [])

finished_at : (finished.0.pc 0 ≡ done 0) × (finished.0.pc 1 ≡ done 7)
unfolding exec
finished_at = (refl, refl)

abbrev asked : From
unfolding exec
asked =
    turns (_, later finished.1 (range_call 2 4 8 refl (omega arith) (omega arith))) 2
      (4 ∷ 4 ∷ 4 ∷ 4 ∷ 4 ∷ [])

asked_at : asked.0.pc 2 ≡ queried 4 8 ((6, 8) ∷ [])
unfolding exec
asked_at = refl

abbrev contains_five : From
unfolding exec
contains_five =
    turns (_, later asked.1 (contains_call 1 5 refl (omega arith) (omega arith))) 1 (4 ∷ 4 ∷ [])

contains_five_at : contains_five.0.pc 1 ≡ answered false
unfolding exec
contains_five_at = refl

list_ordered_example :
    (chain : List Ptr) × (Links 9 waiting.0.heap.next waiting.0.heap.key 0 chain)
    × ((n : Ptr)
        → waiting.0.heap.marked n ≡ true
        → (known 0 waiting.0.heap chain (waiting.0.heap.next n) ≡ true)
          × (waiting.0.heap.key n < waiting.0.heap.key (waiting.0.heap.next n)))
list_ordered_example = list_ordered 0 9 0 0 1 (omega arith) refl waiting.0 waiting.1

list_exclusive_example : (waiting.0.heap.lock 0 ≡ true) × (holds (waiting.0.pc 0) 0 ≡ false)
list_exclusive_example =
    list_exclusive 0 9 0 0 1 (omega arith) refl waiting.0 waiting.1 1 0 0 (unfold exec in refl)
      (λ e. omega (arith, e))

queries_ordered_example : Falling 4 8 9 ((6, 8) ∷ [])
queries_ordered_example =
    queries_ordered 0 9 0 0 1 (omega arith) refl asked.0 asked.1 2 4 8 ((6, 8) ∷ [])
      (unfold exec in refl)

search_advances_example :
    ((searching.0.heap.key 2 < 6)
      × ((run 0 0 searching.0 0 3).pc 0 ≡ walk (put 8 false) 6 2 (searching.0.heap.next 2))
      × (searching.0.heap.key 2 < searching.0.heap.key (searching.0.heap.next 2))
      × (searching.0.heap.key (searching.0.heap.next 2) ≤ 9))
    ⊎ ((6 ≤ searching.0.heap.key 2)
        × ((run 0 0 searching.0 0 3).pc 0 ≡ arrive 0 (put 8 false) 6 0 2 (searching.0.heap.key 2)))
search_advances_example =
    search_advances 0 9 0 0 1 (omega arith) refl searching.0 searching.1 0 (put 8 false) 6 0 2 3
      (unfold exec in refl)

-- Only thread 0 runs, and between its calls nobody does.
Waits : From → Type 0
Waits f = (t : ℕ) → (0 == t) ≡ false → at_rest (f.0.pc t) ≡ true

if_free-Waits :
    (b : Bool) (go : b ≡ false → From) (f : From)
    → Waits f
    → ((e : b ≡ false) → Waits (go e))
    → Waits (if_free b go f)
if_free-Waits true go f w w' = w
if_free-Waits false go f w w' = w' refl

turns-Waits : (f : From) (ns : List Ptr) → Waits f → Waits (turns f 0 ns)
unfolding Waits
turns-Waits f [] w = w
turns-Waits (s, r) (n ∷ ns) w =
    turns-Waits (if_free (s.used n) (λ e. (run 0 0 s 0 n, later r (access 0 n e))) (s, r)) ns (
      if_free-Waits (s.used n) (λ e. (run 0 0 s 0 n, later r (access 0 n e))) (s, r) w
        (λ e t d. rw d (w t d)))

first-rests : (t : ℕ) → at_rest (first.0.pc t) ≡ true
unfolding exec Waits
first-rests t = elim (Bool-cases (0 == t)) [
  | inl e ↦ subst (λ u. at_rest (first.0.pc u) ≡ true) (==→≡ 0 t e) refl
  | inr e ↦ turns-Waits called (2 ∷ 2 ∷ 2 ∷ 2 ∷ 2 ∷ 2 ∷ 2 ∷ 3 ∷ []) (λ u d. rw d refl) t e
]

abbrev first_map : ℕ → Option ℕ
unfolding exec
first_map = contents first.0.heap (2 ∷ 1 ∷ [])

first-Shows : Shows 9 0 first.0.heap first_map
unfolding exec
first-Shows = (2 ∷ 1 ∷ [], (refl, omega arith, (refl, omega arith, refl)), λ x. refl)

-- Key 5 has 7 and gets 3.
update_alone_example :
    (h : Nodes) × (Goes 0 0 3
      (start (put 3 false) 5)
      first.0.heap
      (h, done (answer 0 (first_map 5))))
    × Shows 9 0 h (outcome (put 3 false) 5 first_map)
unfolding first
update_alone_example =
    update_alone 0 9 0 0 1 (omega arith) refl first.0 first.1 first_map (put 3 false) 5 3
      first-rests first-Shows (omega arith) (omega arith) (unfold exec in refl)

range_alone_example :
    (out : List (ℕ × ℕ)) × (Goes 0 0 3 (enter 4 8) first.0.heap (first.0.heap, queried 4 8 out))
    × ((k : ℕ) → lookup out k ≡ ranged 4 8 first_map k)
range_alone_example =
    range_alone 0 9 0 0 1 (omega arith) refl first.0 first.1 first_map 4 8 3 first-rests first-Shows
      (omega arith) (omega arith)
