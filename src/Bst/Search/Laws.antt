-- ===== src/Bst/Search/Laws.antt =====
-- A search on a memory that holds a tree follows the search path of its key and changes no pointer.
use vcaslib.Common.{
  ℕ, zero, suc, ◌<◌, ◌≡◌, ◌≢◌, inl, inr, refl, ap, sym, subst, ◌∙◌, false, Option, some, ◌==◌, ltb,
  Bool-cases, arith,
}
use vcaslib.Rq.{Ptr, Addr, null, Mem}
use vcaslib.Rq.Sequential.{read_addr}
use vcaslib.Bst.{Store, left_of, right_of}
use vcaslib.Bst.Search.{Place, descend}
use vcaslib.Bst.Llx.Settled.{read-field, read-result}
use vcaslib.Bst.Tree.{Tree, leaf, node, height, At, Way, stop, turn_left, turn_right}
use vcaslib.Bst.Tree.Frame.{At-null}

-- No inner node and no leaf has NO_KEY.
abbrev pub Proper : ℕ → Tree → Type 0
Proper no_key (leaf p k v) = k ≢ no_key
Proper no_key (node p k l r) = (k ≢ no_key) × Proper no_key l × Proper no_key r

-- Where a search ends.
abbrev pub Arrives :
    (no_key key : ℕ) → Store → (a : Addr) → (gp p : Ptr) → Tree → Option (Store × Place) → Type 0
Arrives no_key key s a gp p t r =
    (m : Mem) × (b : Addr) × (place : Place) × (k v : ℕ) × (r ≡ some (record s { mem = m }, place))
    × (m.field ≡ s.mem.field)
    × Way no_key key a gp p t b place.grandparent place.parent (leaf place.leaf k v)

pub descend-Arrives :
    (no_key : ℕ) (n : ℕ) (s : Store) (key : ℕ) (a : Addr) (gp p q : Ptr) (t : Tree)
    → At s.mem.field s.key s.value q t
    → Proper no_key t
    → height t < n
    → Arrives no_key key s a gp p t (descend n s key gp p q)
unfolding descend
descend-Arrives no_key zero s key a gp p q t h c l = absurd (omega arith)
descend-Arrives no_key (suc n) s key a gp p q (leaf y k v) h c l =
    let e : (read_addr s.mem (left_of q)).1 ≡ null =
      read-result s.mem (left_of q) ∙ ap (λ z. s.mem.field (left_of z)) h.0 ∙ h.4 in
    (
      (read_addr s.mem (left_of q)).0,
      a,
      record { grandparent = gp; parent = p; leaf = q },
      k,
      v,
      rw e refl,
      read-field s.mem (left_of q),
      subst (λ z. Way no_key key a gp p (leaf z k v) a gp p (leaf q k v)) h.0 stop,
    )
descend-Arrives no_key (suc n) s key a gp p q (node y k l r) h c u =
    subst (λ z. Arrives no_key key s a gp p (node y k l r) (descend (suc n) s key gp p z)) (sym h.0)
      (elim (Bool-cases (ltb key k)) [
        | inl d ↦
            let (m, b, place, k', v', e, fe, w) =
              descend-Arrives no_key n (after (left_of y)) key (left_of y) p y (child (left_of y)) l
                (below (left_of y) l h.3) c.1 (ground (arith, u)) in
            (
              m,
              b,
              place,
              k',
              v',
              rw (more, h.2, d) e,
              fe ∙ again (left_of y),
              turn_left (ground (arith, d)) w,
            )
        | inr d ↦
            let (m, b, place, k', v', e, fe, w) =
              descend-Arrives no_key n (after (right_of y)) key (right_of y) p y
                (child (right_of y)) r (below (right_of y) r h.4) c.2 (ground (arith, u)) in
            (
              m,
              b,
              place,
              k',
              v',
              rw (more, h.2, d) e,
              fe ∙ again (right_of y),
              turn_right (ground (arith, c.0, d)) w,
            )
      ])
  where
    m1 : Mem
    m1 = (read_addr s.mem (left_of y)).0

    after : Addr → Store
    after z = record s { mem = (read_addr m1 z).0 }

    child : Addr → Ptr
    child z = (read_addr m1 z).1

    again : (z : Addr) → (read_addr m1 z).0.field ≡ s.mem.field
    again z = read-field m1 z ∙ read-field s.mem (left_of y)

    found : (z : Addr) → child z ≡ s.mem.field z
    found z = read-result m1 z ∙ ap (λ f. f z) (read-field s.mem (left_of y))

    below :
        (z : Addr) (t : Tree)
        → At s.mem.field s.key s.value (s.mem.field z) t
        → At (after z).mem.field s.key s.value (child z) t
    below z t i =
        subst (λ f. At f s.key s.value (child z) t) (sym (again z))
          (subst (λ w. At s.mem.field s.key s.value w t) (sym (found z)) i)

    more : ((read_addr s.mem (left_of y)).1 == null) ≡ false
    more = ground (arith, read-result s.mem (left_of y), At-null s.mem.field s.key s.value _ l h.3)
