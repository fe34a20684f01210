-- ===== src/Lock/Tally.antt =====
-- Sums over the threads below a bound, of a weight that each thread has by where it stands.
use vcaslib.Common.{
  ℕ, zero, suc, ◌+◌, ◌≤◌, ◌<◌, ◌≡◌, refl, inl, inr, ◌==◌, false, update, Bool-cases, ==→≡, arith,
}

unfoldable pub tally : {P : Type 0} → (P → ℕ) → (ℕ → P) → ℕ → ℕ
tally f pc zero = 0
tally f pc (suc n) = tally f pc n + f (pc n)

module _ {P : Type 0} (f : P → ℕ) (pc : ℕ → P) where
  tally-out : (i n : ℕ) (q : P) → n ≤ i → tally f (update pc i q) n ≡ tally f pc n
  unfolding tally
  tally-out i zero q h = refl
  tally-out i (suc n) q h =
      let e : (i == n) ≡ false = ground arith in rw (e, tally-out i n q (omega arith)) refl

  pub tally-update :
      (i n : ℕ) (q : P) → i < n → tally f (update pc i q) n + f (pc i) ≡ tally f pc n + f q
  unfolding tally
  tally-update i zero q h = absurd (omega arith)
  tally-update i (suc n) q h = elim (Bool-cases (i == n)) [
    | inl e ↦ let d : i ≡ n = ==→≡ i n e in rw (e, tally-out i n q (omega arith), d) (omega arith)
    | inr e ↦ rw e (omega (arith, tally-update i n q (ground arith)))
  ]

  pub tally-one : (i n : ℕ) → i < n → f (pc i) ≤ tally f pc n
  unfolding tally
  tally-one i zero h = absurd (omega arith)
  tally-one i (suc n) h = elim (Bool-cases (i == n)) [
    | inl e ↦ let d : i ≡ n = ==→≡ i n e in rw d (omega arith)
    | inr e ↦ omega (arith, tally-one i n (ground arith))
  ]

  pub tally-two : (i j n : ℕ) → i < j → j < n → f (pc i) + f (pc j) ≤ tally f pc n
  unfolding tally
  tally-two i j zero l h = absurd (omega arith)
  tally-two i j (suc n) l h = elim (Bool-cases (j == n)) [
    | inl e ↦ let d : j ≡ n = ==→≡ j n e in rw d (omega (arith, tally-one i n (omega (arith, d))))
    | inr e ↦ omega (arith, tally-two i j n l (ground arith))
  ]

  pub tally-zero : (n : ℕ) → ((i : ℕ) → f (pc i) ≡ 0) → tally f pc n ≡ 0
  unfolding tally
  tally-zero zero z = refl
  tally-zero (suc n) z = omega (arith, tally-zero n z, z n)

  pub tally_mono : (g : P → ℕ) (n : ℕ) → ((p : P) → f p ≤ g p) → tally f pc n ≤ tally g pc n
  unfolding tally
  tally_mono g zero m = omega arith
  tally_mono g (suc n) m = omega (arith, tally_mono g n m, m (pc n))

  pub tally-bound : (n : ℕ) → ((p : P) → f p ≤ 1) → tally f pc n ≤ n
  unfolding tally
  tally-bound zero m = omega arith
  tally-bound (suc n) m = omega (arith, tally-bound n m, m (pc n))
