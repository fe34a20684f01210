-- ===== src/LazyList/Count.antt =====
-- `debugKeySum`, `getSizeInNodes` and `getSize` of artifact/cpp/lazylist, which walk the list while no
-- other thread runs. Each loop has fuel; as many rounds as there are nodes behind `head` are enough.
use vcaslib.Common.{
  ℕ, zero, suc, ◌+◌, ◌≤◌, ◌<◌, ◌≡◌, refl, ap, ◌∙◌, true, false, not, List, [], ◌∷◌, Option, none,
  some, if◌then◌else◌, length, ltb, ◌==◌, arith,
}
use vcaslib.Common.Arrays.{one_if}
use vcaslib.Rq.{Ptr}
use vcaslib.LazyList.{Nodes}
use vcaslib.LazyList.Chain.{Links, Links-max}

abbrev plus : ℕ → Option ℕ → Option ℕ
plus a none = none
plus a (some b) = some (a + b)

module _ (max : ℕ) (h : Nodes) where
  abbrev pub sum_keys : (fuel : ℕ) → Ptr → Option ℕ
  sum_keys zero c = none
  sum_keys (suc k) c =
      let rest = sum_keys k (h.next c) in if ltb (h.key c) max then plus (h.key c) rest else some 0

  abbrev pub debug_key_sum : (fuel : ℕ) → (head : Ptr) → Option ℕ
  debug_key_sum fuel head = sum_keys fuel (h.next head)

  abbrev pub count_nodes : (fuel : ℕ) → Ptr → Option ℕ
  count_nodes zero c = none
  count_nodes (suc k) c =
      let rest = count_nodes k (h.next c) in if h.key c == max then some 0 else plus 1 rest

  abbrev pub get_size_in_nodes : (fuel : ℕ) → (head : Ptr) → Option ℕ
  get_size_in_nodes fuel head = count_nodes fuel (h.next head)

  abbrev pub count_unmarked : (fuel : ℕ) → Ptr → Option ℕ
  count_unmarked zero c = none
  count_unmarked (suc k) c =
      let rest = count_unmarked k (h.next c) in
      if h.key c == max then some 0 else plus (one_if (not (h.marked c))) rest

  abbrev pub get_size : (fuel : ℕ) → (head : Ptr) → Option ℕ
  get_size fuel head = count_unmarked fuel (h.next head)

  -- The sum over the nodes of a list but the last, which has KEY_MAX.
  abbrev pub total : (Ptr → ℕ) → List Ptr → ℕ
  total weight [] = 0
  total weight (r ∷ []) = 0
  total weight (r ∷ s ∷ ss) = weight r + total weight (s ∷ ss)

  -- Each of the three visits every node behind `head` but the one with KEY_MAX, once.
  pub sizes-total :
      (head r : Ptr) (rs : List Ptr) (fuel : ℕ)
      → Links max h.next h.key head (r ∷ rs)
      → length (r ∷ rs) ≤ fuel
      → (debug_key_sum fuel head ≡ some (total h.key (r ∷ rs)))
        × (get_size_in_nodes fuel head ≡ some (total (λ _. 1) (r ∷ rs)))
        × (get_size fuel head ≡ some (total (λ c. one_if (not (h.marked c))) (r ∷ rs)))
  sizes-total head r rs zero l f = absurd (omega (arith, f))
  sizes-total head r [] (suc fuel) l f =
      let e : h.key (h.next head) ≡ max = ap h.key l.0 ∙ l.2 in
      let a : ltb (h.key (h.next head)) max ≡ false = ground (arith, e) in
      let b : (h.key (h.next head) == max) ≡ true = ground (arith, e) in
      (rw a refl, rw b refl, rw b refl)
  sizes-total head r (s ∷ ss) (suc fuel) l f =
      let (_, up, l') = l.2 in
      let (x, y, z) = sizes-total r s ss fuel l.2 (omega (arith, f)) in
      let below : h.key r < max = omega (arith, up, Links-max max h.next h.key s ss l') in
      let a : ltb (h.key r) max ≡ true = ground (arith, below) in
      let b : (h.key r == max) ≡ false = ground (arith, below) in
      rw l.0 (
        rw a (ap (λ o. plus (h.key r) o) x),
        rw b (ap (λ o. plus 1 o) y),
        rw b (ap (λ o. plus (one_if (not (h.marked r))) o) z),
      )
