-- ===== src/Bst/Erase/Steps.antt =====
-- An erasure whose LLXs and SCX succeed, step by step.
use vcaslib.Common.{
  ℕ, ◌≡◌, ◌⊎◌, inl, inr, refl, ap, ◌∙◌, true, Option, some, [], ◌∷◌, if◌then◌else◌, ◌==◌,
  Bool-cases,
}
use vcaslib.Rq.{Ptr, Addr}
use vcaslib.Descriptors.{leaf_tag}
use vcaslib.Bst.{Store, left_of, right_of, initialize_node}
use vcaslib.Bst.Llx.{Llx, llx, scx}
use vcaslib.Bst.Llx.Settled.{llx_value}
use vcaslib.Bst.Update.{Family, family_of, when_linked, llx_parent, side_of, outcome, remove_leaf}

abbrev pub sibling_of : Family → (l : Ptr) → Ptr
sibling_of f l = if l == f.left then f.right else f.left

-- An attempt whose LLXs and SCX succeed.
module _ (no_key no_value : ℕ) (root : Ptr) (tid : ℕ) where
  pub remove_leaf-steps :
      (s s1 s2 s3 s5 : Store) (g f below : Family) (r : Llx) (n0 gp p l : Ptr)
      → llx_parent s gp p ≡ (s1, some g)
      → llx_parent s1 p l ≡ (s2, some f)
      → llx s2 (sibling_of f l) ≡ (s3, r)
      → family_of r ≡ some below
      → let q = sibling_of f l in
        scx
            (initialize_node s3 n0 (s3.key q) (s3.value q) below.left below.right)
            tid
            (gp ∷ p ∷ q ∷ l ∷ [])
            (g.seen ∷ f.seen ∷ below.seen ∷ [])
            3
            (side_of g gp p)
            n0
          ≡ (s5, true)
        → remove_leaf no_key no_value root tid s n0 gp p l ≡ (s5, some (s2.value l))
  unfolding remove_leaf
  remove_leaf-steps s s1 s2 s3 s5 g f below r n0 gp p l e1 e2 e3 e4 e5 =
      ap (λ z. when_linked z first) e1
      ∙ ap (λ z. when_linked z (second g)) e2
      ∙ ap (λ z. when_linked (z.0, family_of z.1) (third g s2 f)) e3
      ∙ ap (λ z. when_linked (s3, z) (third g s2 f)) e4
      ∙ ap (λ z. outcome z (s2.value l)) e5
    where
      third : Family → Store → Family → Store → Family → Store × Option ℕ
      third g' s2' f' s3' b' =
          let q = sibling_of f' l in
          outcome
            (scx (initialize_node s3' n0 (s3'.key q) (s3'.value q) b'.left b'.right) tid
              (gp ∷ p ∷ q ∷ l ∷ []) (g'.seen ∷ f'.seen ∷ b'.seen ∷ []) 3 (side_of g' gp p) n0)
            (s2'.value l)

      second : Family → Store → Family → Store × Option ℕ
      second g' s2' f' =
          when_linked ((llx s2' (sibling_of f' l)).0, family_of (llx s2' (sibling_of f' l)).1)
            (third g' s2' f')

      first : Store → Family → Store × Option ℕ
      first s1' g' = when_linked (llx_parent s1' p l) (second g')

pub scx-same :
    (s s' : Store) (tid : ℕ) (n gp p m : Ptr) (c : ℕ) {q q' l l' r r' : Ptr} {a a' b b' : ℕ}
    {f f' : Addr}
    → q ≡ q'
    → l ≡ l'
    → r ≡ r'
    → a ≡ a'
    → b ≡ b'
    → f ≡ f'
    → scx
        (initialize_node s n (s.key q') (s.value q') l' r')
        tid
        (gp ∷ p ∷ q' ∷ m ∷ [])
        (a' ∷ b' ∷ c ∷ [])
        3
        f'
        n
      ≡ (s', true)
    → scx
        (initialize_node s n (s.key q) (s.value q) l r)
        tid
        (gp ∷ p ∷ q ∷ m ∷ [])
        (a ∷ b ∷ c ∷ [])
        3
        f
        n
      ≡ (s', true)
scx-same s s' tid n gp p m c eq el er ea eb ef h = rw (eq, el, er, ea, eb, ef) h

pub family-value :
    (s : Store) (q : Ptr)
    → (b : Family) × (family_of (llx_value s q) ≡ some b)
      × (b.left ≡ s.mem.field (left_of q))
      × (b.right ≡ s.mem.field (right_of q))
      × ((b.seen ≡ leaf_tag) ⊎ (b.seen ≡ s.scx_record q))
unfolding llx_value
family-value s q = elim (Bool-cases (s.mem.field (left_of q) == 0)) [
  | inl e ↦ (
    record { seen = leaf_tag; left = s.mem.field (left_of q); right = s.mem.field (right_of q) },
    rw e refl,
    refl,
    refl,
    inl refl,
  )
  | inr e ↦ (
    record {
      seen = s.scx_record q;
      left = s.mem.field (left_of q);
      right = s.mem.field (right_of q);
    },
    rw e refl,
    refl,
    refl,
    inr refl,
  )
]
