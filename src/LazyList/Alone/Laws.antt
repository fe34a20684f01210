-- ===== src/LazyList/Alone/Laws.antt =====
-- `insert`, `insertIfAbsent` and `erase` of artifact/cpp/lazylist while no other thread runs.
use vcaslib.Common.{
  ℕ, ◌≤◌, ◌<◌, ◌≡◌, refl, inl, inr, ap, sym, subst, fun_ext, ◌∙◌, Bool, true, false, List, ◌∷◌, has,
  update, Option, none, some, if◌then◌else◌, ◌==◌, ==→≡, ==-refl, Bool-cases, arith,
}
use vcaslib.Rq.{Ptr}
use vcaslib.LazyList.{
  Nodes, Op, put, del, Pc, done, start, walk, lock_pred, store, link, mark, unlink, arrive,
  set_lock, link_new, exec,
}
use vcaslib.LazyList.Machine.{System, Reach, at_rest}
use vcaslib.LazyList.Chain.{put_after, drop_after}
use vcaslib.LazyList.Known.{known, Tidy, linked}
use vcaslib.LazyList.Good.{Good, Found, Held}
use vcaslib.LazyList.Quiet.{Good-exec}
use vcaslib.LazyList.Access.{Tidy-exec}
use vcaslib.LazyList.Effects.{contents, effect-exec, found, not_there}
use vcaslib.LazyList.Settled.{settled}
use vcaslib.LazyList.Alone.{Goes, arrived, then_on, search-alone}
use vcaslib.LazyList.Alone.Ends.{
  put_absent, put_present, put_over, erase_present, freed, stored, erased,
}
use vcaslib.LazyList.Laws.{Shows, Links-once}

-- What an update answers, and what it makes of a map.
abbrev pub answer : (no_value : ℕ) → Option ℕ → ℕ
answer no_value none = no_value
answer no_value (some r) = r

abbrev pub put_into :
    (v : ℕ) → (only_if_absent : Bool) → (x : ℕ) → (ℕ → Option ℕ) → Option ℕ → ℕ → Option ℕ
put_into v o x f none = update f x (some v)
put_into v o x f (some r) = if o then f else update f x (some v)

abbrev pub outcome : Op → (x : ℕ) → (ℕ → Option ℕ) → ℕ → Option ℕ
outcome (put v o) x f = put_into v o x f (f x)
outcome del x f = update f x none

module _ (max no_value : ℕ) (head : Ptr) (h : Nodes) (used : Ptr → Bool) (chain : List Ptr)
    (tidy : Tidy max head h used chain) (n : Ptr) (new : used n ≡ false) (x : ℕ)
    (below : h.key head < x) (above : x < max) (free : (a : Ptr) → h.lock a ≡ false)
    (clean : (a : Ptr) → has a (head ∷ chain) ≡ true → h.marked a ≡ false) where
  abbrev f : ℕ → Option ℕ
  f = contents h chain

  abbrev Ends : Op → Pc → Type 0
  Ends op q =
      (h' : Nodes) × (Goes no_value head n q h (h', done (answer no_value (f x))))
      × Shows max head h' (outcome op x f)

  module _ (p : Ptr) (i : has p (head ∷ chain) ≡ true) (b : h.key p < x)
      (a : x ≤ h.key (h.next p)) where
    abbrev c : Ptr
    c = h.next p

    held : Held max head h chain x p c
    held =
        let k : known head h chain p ≡ true = ground (arith, i) in
        let j = (linked max head h used chain tidy p k (clean p i) (omega (arith, b, above))).0 in
        (k, ground (arith, j), clean p i, refl, b, above, below)

    clean_c : h.marked c ≡ false
    clean_c =
        let k : known head h chain p ≡ true = ground (arith, i) in
        let j = (linked max head h used chain tidy p k (clean p i) (omega (arith, b, above))).0 in
        clean c (ground (arith, j))

    -- `x` is not there.
    absent : (h.key c == x) ≡ false → Good max head h chain (link 0 false x p c)
    absent d = (held, ground (arith, a, d))

    present : (h.key c == x) ≡ true → Found max head h chain x p c
    present d = (held, ==→≡ (h.key c) x d, clean_c)

    none_there : (h.key c == x) ≡ false → f x ≡ none
    none_there d = not_there max head h used chain tidy 0 false x p c (absent d)

    some_there : (h.key c == x) ≡ true → f x ≡ some (h.val c)
    some_there d = let (k, b, u) = present d in (found max head h used chain tidy c x k.1 u k.6 b).1

    apart : (h.key c == x) ≡ true → (p == c) ≡ false
    apart d = elim (Bool-cases (p == c)) [
      | inl e ↦ absurd (omega (arith, b, ==→≡ (h.key c) x d, ap h.key (==→≡ p c e)))
      | inr e ↦ e
    ]

    put_absent-Ends :
        (v : ℕ) (o : Bool) → (h.key c == x) ≡ false → Ends (put v o) (lock_pred (put v o) x p c)
    unfolding exec
    put_absent-Ends v o d =
        let g : Good max head h chain (link v o x p c) = absent d in
        let t = Tidy-exec max no_value head h used chain tidy n new (link v o x p c) g in
        rw (none_there d) (
          set_lock (link_new (set_lock h p true) n x v p c) p false,
          put_absent no_value head n h x p c (free p) (clean p i) clean_c (==-refl c) v o d,
          (
            put_after head chain p n,
            t.links,
            λ y. effect-exec max head h used chain tidy no_value n new (link v o x p c) y g,
          ),
        )

    put_present-Ends :
        (v : ℕ) (o : Bool) → (h.key c == x) ≡ true → Ends (put v o) (lock_pred (put v o) x p c)
    unfolding exec
    put_present-Ends v true d = rw (some_there d) (
      set_lock (set_lock h p true) p false,
      put_present no_value head n h x p c (free p) (clean p i) clean_c (==-refl c) v d,
      (chain, tidy.links, λ y. refl),
    )
    put_present-Ends v false d = rw (some_there d) (
      freed no_value head n h x p c (free p) (clean p i) clean_c (==-refl c) (
          stored no_value head n h x p c (free p) (clean p i) clean_c (==-refl c) (free c) (apart d)
            d v),
      put_over no_value head n h x p c (free p) (clean p i) clean_c (==-refl c) (free c) (apart d) d
          v,
      (
        chain,
        tidy.links,
        λ y.
            effect-exec max head h used chain tidy no_value n new (store v x p c (h.val c)) y
              (present d, refl),
      ),
    )

    erase_present-Ends : (h.key c == x) ≡ true → Ends del (lock_pred del x p c)
    unfolding exec
    erase_present-Ends d =
        let r = h.val c in
        let next = h.next c in
        let g : Good max head h chain (mark x p c r next) = (present d, refl, refl) in
        let t = Tidy-exec max no_value head h used chain tidy n new (mark x p c r next) g in
        let h' = record h { marked = update h.marked c true } in
        let g' : Good max head h' chain (unlink p c r next) =
          Good-exec max no_value head h used chain tidy (mark x p c r next) n g in
        let t' = Tidy-exec max no_value head h' used chain t n new (unlink p c r next) g' in
        rw (some_there d) (
          freed no_value head n h x p c (free p) (clean p i) clean_c (==-refl c) (
              erased no_value head n h x p c (free p) (clean p i) clean_c (==-refl c) (free c)
                (apart d) d),
          erase_present no_value head n h x p c (free p) (clean p i) clean_c (==-refl c) (free c)
              (apart d) d,
          (
            drop_after head chain p,
            t'.links,
            λ y.
                effect-exec max head h' used chain t no_value n new (unlink p c r next) y g'
                ∙ effect-exec max head h used chain tidy no_value n new (mark x p c r next) y g,
          ),
        )

    erase_absent-Ends : (h.key c == x) ≡ false → Ends del (done no_value)
    erase_absent-Ends d = rw (none_there d) (
      h,
      arrived no_value head n (done no_value) h,
      (
        chain,
        tidy.links,
        λ y. elim (Bool-cases (x == y)) [
          | inl e ↦ rw e (ap f (sym (==→≡ x y e)) ∙ none_there d)
          | inr e ↦ rw e refl
        ],
      ),
    )

    arrived-Ends : (op : Op) → Ends op (arrive no_value op x p c (h.key c))
    arrived-Ends (put v o) = elim (Bool-cases (h.key c == x)) [
      | inl d ↦ put_present-Ends v o d
      | inr d ↦ put_absent-Ends v o d
    ]
    arrived-Ends del = elim (Bool-cases (h.key c == x)) [
      | inl d ↦ rw d (erase_present-Ends d)
      | inr d ↦ rw d (erase_absent-Ends d)
    ]

  start-Ends : (op : Op) → Ends op (start op x)
  unfolding exec
  start-Ends op =
      let (p, i, b, a, go) =
        search-alone no_value head n max h x op head chain tidy.links below above in
      let (h', run, shows) = arrived-Ends p i b a op in
      let e : Nodes × Pc = (h', done (answer no_value (f x))) in
      (
        h',
        then_on no_value head n (start op x) h (walk op x head (h.next head)) h e refl (go e run),
        shows,
      )

module _ (min max no_value : ℕ) (head last : Ptr) (ordered : min < max)
    (two : (head == last) ≡ false) (s : System) (r : Reach min max no_value head last s) where
  -- Let the list stand for a map `f` while no call is pending. An insert, insertIfAbsent or erase of
  -- a key between KEY_MIN and KEY_MAX that now runs by itself comes to its end: it returns the value
  -- that `f` has at the key, or NO_VALUE where it has none, and leaves a list that stands for `f`
  -- changed at the key alone, as on a finite map; `insertIfAbsent` changes no key that is there.
  pub update_alone :
      (f : ℕ → Option ℕ) (op : Op) (x : ℕ) (n : Ptr)
      → ((t : ℕ) → at_rest (s.pc t) ≡ true)
      → Shows max head s.heap f
      → s.heap.key head < x
      → x < max
      → s.used n ≡ false
      → (h : Nodes) × (Goes no_value head n (start op x) s.heap (h, done (answer no_value (f x))))
        × Shows max head h (outcome op x f)
  update_alone f op x n rest (shown, l, same) below above new =
      let (chain, inv, free, clean) = settled min max no_value head last ordered two r rest in
      let e : chain ≡ shown =
        Links-once max s.heap.next s.heap.key head chain shown inv.tidy.links l in
      let e' : contents s.heap chain ≡ f = ap (λ c. contents s.heap c) e ∙ fun_ext same in
      subst
        (λ g.
          (h : Nodes) × (Goes no_value head n (start op x) s.heap (h, done (answer no_value (g x))))
          × Shows max head h (outcome op x g))
        e'
        (start-Ends max no_value head s.heap s.used chain inv.tidy n new x below above free clean
          op)
