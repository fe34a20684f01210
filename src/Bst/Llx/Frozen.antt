-- ===== src/Bst/Llx/Frozen.antt =====
-- The loops of `help` where no node has changed since LLX saw it.
use vcaslib.Common.{
  ℕ, zero, suc, ◌+◌, ◌≤◌, ◌<◌, ◌≡◌, ◌≢◌, ◌⊎◌, inl, inr, refl, sym, subst, ◌∙◌, Bool, true, false,
  none, update, ◌==◌, ==→≡, ==-refl, Bool-cases, arith,
}
use vcaslib.Common.Arrays.{get_or}
use vcaslib.Rq.{Ptr}
use vcaslib.Descriptors.{leaf_tag}
use vcaslib.Bst.{Store, ScxRecord}
use vcaslib.Bst.Llx.{freeze, mark}

-- A node that SCX can freeze: a leaf, a node that is as LLX has seen it, or one that is frozen.
abbrev Freezable : (Ptr → ℕ) → (tag : ℕ) → ScxRecord → ℕ → Type 0
Freezable records tag snap j =
    (get_or snap.seen j 0 ≡ leaf_tag)
    ⊎ ((records (get_or snap.nodes j 0) ≡ get_or snap.seen j 0)
        ⊎ (records (get_or snap.nodes j 0) ≡ tag))

still :
    (records : Ptr → ℕ) (tag : ℕ) (snap : ScxRecord) (p : Ptr) (j : ℕ)
    → Freezable records tag snap j
    → Freezable (update records p tag) tag snap j
still records tag snap p j h = elim (Bool-cases (p == get_or snap.nodes j 0)) [
  | inl e ↦ inr (inr (rw e refl))
  | inr e ↦ rw e h
]

retag :
    (records f : Ptr → ℕ) (tag : ℕ) (p y : Ptr)
    → (f y ≡ update records p tag y) ⊎ (f y ≡ tag)
    → (f y ≡ records y) ⊎ (f y ≡ tag)
retag records f tag p y h = ground arith

retag-at :
    (records f : Ptr → ℕ) (tag : ℕ) (p : Ptr)
    → (f p ≡ update records p tag p) ⊎ (f p ≡ tag)
    → f p ≡ tag
retag-at records f tag p (inl e) = e ∙ rw (==-refl p) refl
retag-at records f tag p (inr e) = e

-- Which nodes have the tag after the loop, and which keep what they had.
abbrev pub Tagged : (before after : Ptr → ℕ) → (tag : ℕ) → ScxRecord → (i n : ℕ) → Type 0
Tagged before after tag snap i n =
    ((j : ℕ)
      → i ≤ j
      → j < i + n
      → get_or snap.seen j 0 ≢ leaf_tag
      → after (get_or snap.nodes j 0) ≡ tag)
    × ((q : Ptr)
        → ((j : ℕ)
            → i ≤ j
            → j < i + n
            → get_or snap.seen j 0 ≢ leaf_tag
            → q ≢ get_or snap.nodes j 0)
        → after q ≡ before q)

stays :
    (records f : Ptr → ℕ) (tag : ℕ) (p : Ptr)
    → (f p ≡ records p) ⊎ (f p ≡ tag)
    → records p ≡ tag
    → f p ≡ tag
stays records f tag p (inl e) g = e ∙ g
stays records f tag p (inr e) g = e

-- One round in front of the others: it leaves the node as it is, or gives it the tag.
tagged :
    (records f : Ptr → ℕ) (tag : ℕ) (snap : ScxRecord) (i n : ℕ)
    → (get_or snap.seen i 0 ≢ leaf_tag → f (get_or snap.nodes i 0) ≡ tag)
    → Tagged records f tag snap (i + 1) n
    → Tagged records f tag snap i (suc n)
tagged records f tag snap i n first (later, kept) = (
  λ j l u ne. elim (Bool-cases (j == i)) [
    | inl e ↦
        let z : j ≡ i = ==→≡ j i e in
        subst (λ k. f (get_or snap.nodes k 0) ≡ tag) (sym z)
          (first (subst (λ k. get_or snap.seen k 0 ≢ leaf_tag) z ne))
    | inr e ↦ later j (ground (arith, l, e)) (omega (arith, u)) ne
  ],
  λ q w. kept q (λ j l u ne. w j (omega (arith, l)) (omega (arith, u)) ne),
)

tag_here :
    (records f : Ptr → ℕ) (tag : ℕ) (snap : ScxRecord) (i n : ℕ)
    → f (get_or snap.nodes i 0) ≡ tag
    → get_or snap.seen i 0 ≢ leaf_tag
    → Tagged (update records (get_or snap.nodes i 0) tag) f tag snap (i + 1) n
    → Tagged records f tag snap i (suc n)
tag_here records f tag snap i n first ne (later, kept) = (
  λ j l u ne'. elim (Bool-cases (j == i)) [
    | inl e ↦ subst (λ k. f (get_or snap.nodes k 0) ≡ tag) (sym (==→≡ j i e)) first
    | inr e ↦ later j (ground (arith, l, e)) (omega (arith, u)) ne'
  ],
  λ q w.
      let d : (get_or snap.nodes i 0 == q) ≡ false =
        ground (arith, w i (omega arith) (omega arith) ne) in
      kept q (λ j l u ne'. w j (omega (arith, l)) (omega (arith, u)) ne') ∙ rw d refl,
)

pub freeze-alone :
    (n i : ℕ) (s : Store) (tag : ℕ) (snap : ScxRecord)
    → ((j : ℕ) → i ≤ j → j < i + n → Freezable s.scx_record tag snap j)
    → (f : Ptr → ℕ) × (freeze n i s tag snap ≡ (record s { scx_record = f }, none))
      × ((q : Ptr) → (f q ≡ s.scx_record q) ⊎ (f q ≡ tag))
      × Tagged s.scx_record f tag snap i n
unfolding freeze
freeze-alone zero i s tag snap h =
    (s.scx_record, refl, λ q. inl refl, (λ j l u ne. absurd (omega (arith, l, u)), λ q w. refl))
freeze-alone (suc n) i s tag snap h = elim (Bool-cases (get_or snap.seen i 0 == leaf_tag)) [
  | inl e ↦
      let (f, q, c, t) =
        freeze-alone n (i + 1) s tag snap (λ j l u. h j (omega arith) (omega arith)) in
      (f, rw e q, c, tagged s.scx_record f tag snap i n (λ ne. absurd (ground (arith, e, ne))) t)
  | inr e ↦ elim (Bool-cases (s.scx_record (get_or snap.nodes i 0) == get_or snap.seen i 0)) [
    | inl d ↦
        let p = get_or snap.nodes i 0 in
        let s1 : Store = record s { scx_record = update s.scx_record p tag } in
        let (f, q, c, t) =
          freeze-alone n (i + 1) s1 tag snap
            (λ j l u. still s.scx_record tag snap p j (h j (omega arith) (omega arith))) in
        (
          f,
          rw (e, d) q,
          λ y. retag s.scx_record f tag p y (c y),
          tag_here s.scx_record f tag snap i n (retag-at s.scx_record f tag p (c p))
              (λ w. ground (arith, e, w)) t,
        )
    | inr d ↦
        let g : (s.scx_record (get_or snap.nodes i 0) == tag) ≡ true =
          ground (arith, h i (omega arith) (omega arith)) in
        let (f, q, c, t) =
          freeze-alone n (i + 1) s tag snap (λ j l u. h j (omega arith) (omega arith)) in
        (
          f,
          rw (e, d, g) q,
          c,
          tagged s.scx_record f tag snap i n
              (λ ne.
                stays s.scx_record f tag (get_or snap.nodes i 0) (c (get_or snap.nodes i 0))
                  (==→≡ (s.scx_record (get_or snap.nodes i 0)) tag g))
              t,
        )
  ]
]

-- Which nodes are marked after the loop.
abbrev pub Finalized : (Ptr → Bool) → ScxRecord → (i n : ℕ) → Type 0
Finalized g snap i n =
    (j : ℕ) → i ≤ j → j < i + n → get_or snap.seen j 0 ≢ leaf_tag → g (get_or snap.nodes j 0) ≡ true

finalized :
    (g : Ptr → Bool) (snap : ScxRecord) (i n : ℕ)
    → (get_or snap.seen i 0 ≢ leaf_tag → g (get_or snap.nodes i 0) ≡ true)
    → Finalized g snap (i + 1) n
    → Finalized g snap i (suc n)
finalized g snap i n first later j l u ne = elim (Bool-cases (j == i)) [
  | inl e ↦
      let z : j ≡ i = ==→≡ j i e in
      subst (λ k. g (get_or snap.nodes k 0) ≡ true) (sym z)
        (first (subst (λ k. get_or snap.seen k 0 ≢ leaf_tag) z ne))
  | inr e ↦ later j (ground (arith, l, e)) (omega (arith, u)) ne
]

pub mark-alone :
    (n i : ℕ) (s : Store) (snap : ScxRecord)
    → (g : Ptr → Bool) × (mark n i s snap ≡ record s { marked = g })
      × ((q : Ptr)
          → ((j : ℕ)
              → i ≤ j
              → j < i + n
              → get_or snap.seen j 0 ≢ leaf_tag
              → q ≢ get_or snap.nodes j 0)
          → g q ≡ s.marked q)
      × Finalized g snap i n
      × ((q : Ptr) → s.marked q ≡ true → g q ≡ true)
unfolding mark
mark-alone zero i s snap =
    (s.marked, refl, λ q h. refl, λ j l u ne. absurd (omega (arith, l, u)), λ q m. m)
mark-alone (suc n) i s snap = elim (Bool-cases (get_or snap.seen i 0 == leaf_tag)) [
  | inl e ↦
      let (g, r, c, d, up) = mark-alone n (i + 1) s snap in
      (
        g,
        rw e r,
        λ q h. c q (λ j l u ne. h j (omega arith) (omega arith) ne),
        finalized g snap i n (λ ne. absurd (ground (arith, e, ne))) d,
        up,
      )
  | inr e ↦
      let p = get_or snap.nodes i 0 in
      let s1 : Store = record s { marked = update s.marked p true } in
      let (g, r, c, d, up) = mark-alone n (i + 1) s1 snap in
      let ne : get_or snap.seen i 0 ≢ leaf_tag = λ w. ground (arith, e, w) in
      (
        g,
        rw e r,
        λ q h.
            let d : (p == q) ≡ false = ground (arith, h i (omega arith) (omega arith) ne) in
            c q (λ j l u ne'. h j (omega arith) (omega arith) ne') ∙ rw d refl,
        finalized g snap i n (λ _. up p (rw (==-refl p) refl)) d,
        λ q m. up q (elim (Bool-cases (p == q)) [ inl w ↦ rw w refl | inr w ↦ rw w m ]),
      )
]
