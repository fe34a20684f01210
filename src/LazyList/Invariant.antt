-- ===== src/LazyList/Invariant.antt =====
-- The invariant of the threads of artifact/cpp/lazylist: the store is tidy, every thread knows what it
-- knows, and no lock has two holders.
use vcaslib.Common.{
  ℕ, ◌<◌, ◌≡◌, ◌⊎◌, refl, inl, inr, ap, sym, ◌∙◌, true, false, List, [], ◌∷◌, ◌==◌, ==→≡, ==-refl,
  Bool-cases, arith,
}
use vcaslib.Rq.{Ptr}
use vcaslib.LazyList.{Pc, start, seek, enter, exec}
use vcaslib.LazyList.Machine.{
  System, access, update_call, contains_call, range_call, run, call, lazylist, Reach, here, later,
  allocates,
}
use vcaslib.LazyList.Known.{Tidy, head-known}
use vcaslib.LazyList.Good.{Good, holds}
use vcaslib.LazyList.Quiet.{chain_after, Good-exec}
use vcaslib.LazyList.Keeps.{Good-Keeps}
use vcaslib.LazyList.Locks.{holds-exec, locked-exec}
use vcaslib.LazyList.Access.{Tidy-exec, Keeps-exec}

pub record Inv (max : ℕ) (head : Ptr) (s : System) (chain : List Ptr) : Type 0 where
  pub tidy : Tidy max head s.heap s.used chain
  pub good : (t : ℕ) → Good max head s.heap chain (s.pc t)
  pub locked :
      (t : ℕ) (a : Ptr) → holds (s.pc t) a ≡ true → (s.heap.lock a ≡ true) × (s.used a ≡ true)
  pub exclusive : (t u : ℕ) (a : Ptr) → holds (s.pc t) a ≡ true → holds (s.pc u) a ≡ true → t ≡ u

module _ (max no_value : ℕ) (head : Ptr) (s : System) (chain : List Ptr)
    (inv : Inv max head s chain) (t : ℕ) (n : Ptr) (new : s.used n ≡ false) where
  abbrev s' : System
  s' = run no_value head s t n

  abbrev chain' : List Ptr
  chain' = chain_after head (s.pc t) n chain

  used-run : (a : Ptr) → s.used a ≡ true → s'.used a ≡ true
  used-run a e = elim (Bool-cases (allocates (s.pc t))) [
    | inl d ↦ rw d (elim (Bool-cases (n == a)) [ inl w ↦ rw w refl | inr w ↦ rw w e ])
    | inr d ↦ rw d e
  ]

  unequal : (a : Ptr) → s.used a ≡ true → (n == a) ≡ false
  unequal a e = elim (Bool-cases (n == a)) [
    | inl d ↦ absurd (ground (arith, sym new ∙ ap s.used (==→≡ n a d) ∙ e))
    | inr d ↦ d
  ]

  mine :
      (a : Ptr)
      → holds (exec no_value head (s.pc t) n s.heap).1 a ≡ true
      → (s'.heap.lock a ≡ true)
        × (s'.used a ≡ true)
        × ((holds (s.pc t) a ≡ true) ⊎ (s.heap.lock a ≡ false))
  mine a m =
      let (l, from) =
        holds-exec max no_value head s.heap chain n a (s.pc t) (inv.good t)
          (λ z. (inv.locked t a z).0) (λ z. unequal a (inv.locked t a z).1) m in
      elim from [
        | inl z ↦ (l, used-run a (inv.locked t a z).1, inl z)
        | inr z ↦ (l, used-run a (inv.tidy.taken a z.1), inr z.0)
      ]

  apart : (u : ℕ) (a : Ptr) → (t == u) ≡ false → holds (s.pc u) a ≡ true → holds (s.pc t) a ≡ false
  apart u a d m = elim (Bool-cases (holds (s.pc t) a)) [
    | inl e ↦ absurd (ground (arith, d, inv.exclusive t u a e m, ==-refl t))
    | inr e ↦ e
  ]

  theirs :
      (u : ℕ) (a : Ptr)
      → (t == u) ≡ false
      → holds (s.pc u) a ≡ true
      → (s'.heap.lock a ≡ true) × (s'.used a ≡ true)
  theirs u a d m =
      let (l, w) = inv.locked u a m in
      (
        locked-exec max no_value head s.heap chain n a (s.pc t) l (unequal a w) (apart u a d m),
        used-run a w,
      )

  one_holder :
      (u : ℕ) (a : Ptr)
      → (t == u) ≡ false
      → holds (exec no_value head (s.pc t) n s.heap).1 a ≡ true
      → holds (s.pc u) a ≡ true
      → ⊥
  one_holder u a d m m' = elim (mine a m).2 [
    | inl z ↦ ground (arith, d, inv.exclusive t u a z m', ==-refl t)
    | inr z ↦ ground (arith, z, (inv.locked u a m').0)
  ]

  pub Inv-run : Inv max head s' chain'
  Inv-run = record {
    tidy = Tidy-exec max no_value head s.heap s.used chain inv.tidy n new (s.pc t) (inv.good t);
    good = λ u. elim (Bool-cases (t == u)) [
      | inl e ↦
          rw e (Good-exec max no_value head s.heap s.used chain inv.tidy (s.pc t) n (inv.good t))
      | inr e ↦ rw e (
          Good-Keeps max head s.heap s'.heap chain chain'
            (head-known max head s.heap s.used chain inv.tidy) (s.pc u)
            (Keeps-exec max no_value head s.heap s.used chain inv.tidy n new (holds (s.pc u))
              (s.pc t) (inv.good t) (λ a m. apart u a e m))
            (inv.good u))
    ];
    locked = λ u a m. elim (Bool-cases (t == u)) [
      | inl e ↦
          let m' : holds (exec no_value head (s.pc t) n s.heap).1 a ≡ true = rw e at m in
          let (l, w, _) = mine a m' in (l, w)
      | inr e ↦ let m' : holds (s.pc u) a ≡ true = rw e at m in theirs u a e m'
    ];
    exclusive = λ u w a m m'. elim (Bool-cases (t == u)) [
      | inl e ↦ elim (Bool-cases (t == w)) [
        | inl d ↦ sym (==→≡ t u e) ∙ ==→≡ t w d
        | inr d ↦
            let z : holds (exec no_value head (s.pc t) n s.heap).1 a ≡ true = rw e at m in
            let z' : holds (s.pc w) a ≡ true = rw d at m' in absurd (one_holder w a d z z')
      ]
      | inr e ↦
          let z : holds (s.pc u) a ≡ true = rw e at m in
          elim (Bool-cases (t == w)) [
            | inl d ↦
                let z' : holds (exec no_value head (s.pc t) n s.heap).1 a ≡ true = rw d at m' in
                absurd (one_holder u a e z' z)
            | inr d ↦ let z' : holds (s.pc w) a ≡ true = rw d at m' in inv.exclusive u w a z z'
          ]
    ];
  }

-- A call holds nothing yet.
module _ (max : ℕ) (head : Ptr) (s : System) (chain : List Ptr) (inv : Inv max head s chain) (t : ℕ)
    (p : Pc) (g : Good max head s.heap chain p) (none_held : (a : Ptr) → holds p a ≡ false) where
  pub Inv-call : Inv max head (call s t p) chain
  Inv-call = record {
    tidy = inv.tidy;
    good = λ u. elim (Bool-cases (t == u)) [ inl e ↦ rw e g | inr e ↦ rw e (inv.good u) ];
    locked = λ u a m. inv.locked u a (before u a m);
    exclusive = λ u w a m m'. inv.exclusive u w a (before u a m) (before w a m');
  }
    where
      before : (u : ℕ) (a : Ptr) → holds ((call s t p).pc u) a ≡ true → holds (s.pc u) a ≡ true
      before u a m = elim (Bool-cases (t == u)) [
        | inl e ↦ let z : holds p a ≡ true = rw e at m in absurd (ground (arith, z, none_held a))
        | inr e ↦ let z : holds (s.pc u) a ≡ true = rw e at m in z
      ]

module _ (min max no_value : ℕ) (head last : Ptr) (ordered : min < max)
    (two : (head == last) ≡ false) where
  pub Inv-lazylist : Inv max head (lazylist min max head last) (last ∷ [])
  Inv-lazylist = record {
    tidy = record {
      links = (rw (==-refl head) refl, rw (==-refl head, two) ordered, rw two refl);
      low = rw (==-refl head) ordered;
      tails = λ n m. absurd (ground (arith, m));
      taken = λ n k. ground (arith, k);
    };
    good = λ t. tt;
    locked = λ t a m. absurd (ground (arith, m));
    exclusive = λ t u a m m'. absurd (ground (arith, m));
  }

  pub Reach-Inv :
      {s : System} → Reach min max no_value head last s → (chain : List Ptr) × Inv max head s chain
  Reach-Inv here = (last ∷ [], Inv-lazylist)
  Reach-Inv (later {s} r (access t n new)) =
      let (chain, inv) = Reach-Inv r in (_, Inv-run max no_value head s chain inv t n new)
  Reach-Inv (later {s} r (update_call t op x rest above below)) =
      let (chain, inv) = Reach-Inv r in
      (chain, Inv-call max head s chain inv t (start op x) (above, below) (λ a. refl))
  Reach-Inv (later {s} r (contains_call t x rest above below)) =
      let (chain, inv) = Reach-Inv r in
      let k = head-known max head s.heap s.used chain inv.tidy in
      (chain, Inv-call max head s chain inv t (seek x head) (above, below, k) (λ a. refl))
  Reach-Inv (later {s} r (range_call t lo hi rest l h)) =
      let (chain, inv) = Reach-Inv r in
      (chain, Inv-call max head s chain inv t (enter lo hi) (l, h) (λ a. refl))
