-- ===== src/Common/Arrays.antt =====
-- Arrays of which a prefix is in use, as lists: the cells in use, how often a value is in them, the
-- search loop, and what a write does to them.
use Prim.Native.Nat.{ℕ, zero, suc, ◌+◌, ◌-◌, ◌<◌, ◌≤◌}
use mathlib.Core.Path.{◌≡◌, refl, ap, ap₂, ◌∙◌}
use mathlib.Core.Logic.{◌⊎◌, inl, inr}
use mathlib.Core.Bool.{Bool, true, false}
use mathlib.Core.Option.{Option, none, some}
use mathlib.Core.List.{List, [], ◌∷◌, ◌++◌}
use native.Mathlib.Omega.{arith}
use vcaslib.Common.Tests.{◌==◌, ltb, if◌then◌else◌, Bool-cases}
use vcaslib.Common.Lists.{length, set, has, length-set}

abbrev pub get_or : List ℕ → ℕ → ℕ → ℕ
get_or [] i d = d
get_or (x ∷ xs) zero d = x
get_or (x ∷ xs) (suc i) d = get_or xs i d

abbrev pub take : ℕ → List ℕ → List ℕ
take zero xs = []
take (suc n) [] = []
take (suc n) (x ∷ xs) = x ∷ take n xs

abbrev pub one_if : Bool → ℕ
one_if true = 1
one_if false = 0

abbrev pub count : ℕ → List ℕ → ℕ
count y [] = 0
count y (x ∷ xs) = one_if (y == x) + count y xs

-- `for (i=0;i<n;++i) if (data[i] == obj) return i;` from index `i` on, with `n` rounds left.
unfoldable pub index_from : List ℕ → ℕ → ℕ → ℕ → Option ℕ
index_from [] n obj i = none
index_from (x ∷ xs) zero obj i = none
index_from (x ∷ xs) (suc n) obj i =
    let rest = index_from xs n obj (i + 1) in if x == obj then some i else rest

pub count-append : (y : ℕ) (xs ys : List ℕ) → count y (xs ++ ys) ≡ count y xs + count y ys
count-append y [] ys = omega arith
count-append y (x ∷ xs) ys = omega (arith, count-append y xs ys)

pub length-take_le : (n : ℕ) (xs : List ℕ) → n ≤ length xs → length (take n xs) ≡ n
length-take_le zero xs h = refl
length-take_le (suc n) [] h = absurd (omega arith)
length-take_le (suc n) (x ∷ xs) h = ap suc (length-take_le n xs (omega arith))

pub take-suc :
    (n : ℕ) (xs : List ℕ) → n < length xs → take (suc n) xs ≡ take n xs ++ (get_or xs n 0 ∷ [])
take-suc zero [] h = absurd (omega arith)
take-suc zero (x ∷ xs) h = refl
take-suc (suc n) [] h = absurd (omega arith)
take-suc (suc n) (x ∷ xs) h = ap (λ l. x ∷ l) (take-suc n xs (omega arith))

pub take-set_le : (n i v : ℕ) (xs : List ℕ) → n ≤ i → take n (set xs i v) ≡ take n xs
take-set_le zero i v xs h = refl
take-set_le (suc n) i v [] h = refl
take-set_le (suc n) zero v (x ∷ xs) h = absurd (omega arith)
take-set_le (suc n) (suc i) v (x ∷ xs) h = ap (λ l. x ∷ l) (take-set_le n i v xs (omega arith))

pub get_or-set_self : (xs : List ℕ) (i v : ℕ) → i < length xs → get_or (set xs i v) i 0 ≡ v
get_or-set_self [] i v h = absurd (omega arith)
get_or-set_self (x ∷ xs) zero v h = refl
get_or-set_self (x ∷ xs) (suc i) v h = get_or-set_self xs i v (omega arith)

-- A write among the first `n` cells changes one value for another.
pub count-take-set :
    (y n i v : ℕ) (xs : List ℕ)
    → i < n
    → n ≤ length xs
    → count y (take n (set xs i v)) + one_if (y == get_or xs i 0)
      ≡ count y (take n xs) + one_if (y == v)
count-take-set y zero i v xs h l = absurd (omega arith)
count-take-set y (suc n) i v [] h l = absurd (omega arith)
count-take-set y (suc n) zero v (x ∷ xs) h l = omega arith
count-take-set y (suc n) (suc i) v (x ∷ xs) h l =
    omega (arith, count-take-set y n i v xs (omega arith) (omega arith))

pub count-take-suc :
    (y n : ℕ) (xs : List ℕ)
    → n < length xs
    → count y (take (suc n) xs) ≡ count y (take n xs) + one_if (y == get_or xs n 0)
count-take-suc y n xs h = rw (take-suc n xs h, count-append) (omega arith)

pub has-count : (y : ℕ) (xs : List ℕ) → has y xs ≡ true → 0 < count y xs
has-count y [] h = absurd (ground arith)
has-count y (x ∷ xs) h = ground (arith, has-count y xs)

-- The search loop finds the first cell with the value, or there is none.
pub index_from-cases :
    (xs : List ℕ) (n obj i : ℕ)
    → n ≤ length xs
    → ((index_from xs n obj i ≡ none) × (has obj (take n xs) ≡ false))
      ⊎ ((k : ℕ) × (index_from xs n obj i ≡ some (i + k))
          × (k < n)
          × (get_or xs k 0 ≡ obj)
          × (has obj (take n xs) ≡ true)
          × (has obj (take k xs) ≡ false))
unfolding index_from
index_from-cases [] zero obj i h = inl (refl, refl)
index_from-cases [] (suc n) obj i h = absurd (omega arith)
index_from-cases (x ∷ xs) zero obj i h = inl (refl, refl)
index_from-cases (x ∷ xs) (suc n) obj i h = elim (Bool-cases (x == obj)) [
  | inl e ↦ inr (0, ground arith, omega arith, ground arith, ground arith, refl)
  | inr e ↦ elim (index_from-cases xs n obj (i + 1) (omega arith)) [
    | inl (u, v) ↦ inl (rw e u, ground arith)
    | inr (k, u, l, g, v, w) ↦
        inr (suc k, rw (e, u) (ap some (omega arith)), omega arith, g, ground arith, ground arith)
  ]
]

-- Dropping one of `n + 1` cells by moving the last one into it.
pub count-swap_out :
    (y n i : ℕ) (xs : List ℕ)
    → i ≤ n
    → n < length xs
    → count y (take n (set xs i (get_or xs n 0))) + one_if (y == get_or xs i 0)
      ≡ count y (take (suc n) xs)
count-swap_out y n i xs h l = elim (Bool-cases (i == n)) [
  | inl e ↦
      let d : i ≡ n = ground arith in
      rw d (rw (take-set_le n n (get_or xs n 0) xs (omega arith), count-take-suc y n xs l))
  | inr e ↦
      let lt : i < n = ground arith in
      omega
        (arith, count-take-set y n i (get_or xs n 0) xs lt (omega arith), count-take-suc y n xs l)
]

-- `ys` is `xs` without one occurrence of `obj`, in any order.
abbrev pub Removed : ℕ → List ℕ → List ℕ → Type 0
Removed obj xs ys = (y : ℕ) → count y ys + one_if (y == obj) ≡ count y xs

-- The same facts for a length that is written `n + 1` or `n - 1`.
pub take-push :
    (n v : ℕ) (xs : List ℕ) → n < length xs → take (n + 1) (set xs n v) ≡ take n xs ++ (v ∷ [])
take-push n v xs h =
    let e : n + 1 ≡ suc n = omega arith in
    rw e (
      take-suc n (set xs n v) (omega (arith, length-set xs n v))
      ∙ ap₂ (λ a b. a ++ (b ∷ [])) (take-set_le n n v xs (omega arith)) (get_or-set_self xs n v h))

pub Removed-swap_out :
    (n i : ℕ) (xs : List ℕ)
    → i < n
    → n ≤ length xs
    → Removed (get_or xs i 0) (take n xs) (take (n - 1) (set xs i (get_or xs (n - 1) 0)))
Removed-swap_out zero i xs h l y = absurd (omega arith)
Removed-swap_out (suc n) i xs h l y =
    let e : suc n - 1 ≡ n = omega arith in
    rw e (count-swap_out y n i xs (omega arith) (omega arith))

pub Removed-last :
    (n : ℕ) (xs : List ℕ)
    → 0 < n
    → n ≤ length xs
    → Removed (get_or xs (n - 1) 0) (take n xs) (take (n - 1) xs)
Removed-last zero xs h l y = absurd (omega arith)
Removed-last (suc n) xs h l y =
    let e : suc n - 1 ≡ n = omega arith in rw e (omega (arith, count-take-suc y n xs l))

pub has-eq-count : (y : ℕ) (xs : List ℕ) → has y xs ≡ ltb 0 (count y xs)
has-eq-count y [] = refl
has-eq-count y (x ∷ xs) = ground (arith, has-eq-count y xs)

pub Removed-has : (obj : ℕ) (xs ys : List ℕ) → Removed obj xs ys → has obj xs ≡ true
Removed-has obj xs ys r = ground (arith, r obj, has-eq-count obj xs)

-- `index_from-cases` for a search that starts at 0.
pub index_of-cases :
    (xs : List ℕ) (n obj : ℕ)
    → n ≤ length xs
    → ((index_from xs n obj 0 ≡ none) × (has obj (take n xs) ≡ false))
      ⊎ ((k : ℕ) × (index_from xs n obj 0 ≡ some k)
          × (k < n)
          × (get_or xs k 0 ≡ obj)
          × (has obj (take n xs) ≡ true))
index_of-cases xs n obj h = elim (index_from-cases xs n obj 0 h) [
  | inl p ↦ inl p
  | inr (k, u, l, g, v, w) ↦ inr (k, u ∙ ap some (zero_add k), l, g, v)
]
  where
    zero_add : (k : ℕ) → 0 + k ≡ k
    zero_add k = omega arith
