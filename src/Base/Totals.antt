-- ===== src/Base/Totals.antt =====
-- The sum of a weight over the first numbers, and what a change at one of them does to it.
use Prim.Native.Nat.{ℕ, zero, suc, ◌+◌, ◌*◌, ◌≤◌, ◌<◌}
use mathlib.Core.Path.{◌≡◌, refl, ap}
use mathlib.Core.Logic.{◌≢◌}
use native.Mathlib.Omega.{arith}
use native.Mathlib.Numerals.{unary_clauses}
use native.Mathlib.Decide.{dec_lt}
use mathlib.Core.Bool.{Bool, true, false}
use mac_osx_file_system_filt.Base.Tests.{update, if◌then◌else◌, ◌==◌, ==_refl, ==_ne}

abbrev pub total : (ℕ → ℕ) → ℕ → ℕ
total w zero = 0
total w (suc n) = w n + total w n

module _ {A : Type 0} (w : A → ℕ) (f : ℕ → A) where
  pub total-same :
      (n i : ℕ) (x : A) → n ≤ i → total (λ j. w (update f i x j)) n ≡ total (λ j. w (f j)) n
  total-same zero i x h = omega arith
  total-same (suc n) i x h =
      rw (==_ne i n (λ e. omega (arith, e))) (omega (arith, total-same n i x (omega arith)))

  -- A changed value changes the total by the difference.
  pub total-update :
      (n i : ℕ) (x : A)
      → i < n
      → total (λ j. w (update f i x j)) n + w (f i) ≡ total (λ j. w (f j)) n + w x
  total-update zero i x h = absurd (omega arith)
  total-update (suc n) i x h = elim (dec_lt i n) [
    | yes lt ↦ rw (==_ne i n (λ e. omega (arith, e))) (omega (arith, total-update n i x lt))
    | no ge ↦
        let e : i ≡ n = omega (arith, h, ge) in
        let hit : (i == n) ≡ true = rw e (==_refl n) in
        rw hit (omega (arith, total-same n i x (omega (arith, ge)), ap (λ k. w (f k)) e))
  ]

  pub total-ge : (n i : ℕ) → i < n → w (f i) ≤ total (λ j. w (f j)) n
  total-ge zero i h = absurd (omega arith)
  total-ge (suc n) i h = elim (dec_lt i n) [
    | yes lt ↦ omega (arith, total-ge n i lt)
    | no ge ↦ let e : i ≡ n = omega (arith, h, ge) in rw e (omega arith)
  ]

  pub total-two : (n i j : ℕ) → i < n → j < n → i ≢ j → w (f i) + w (f j) ≤ total (λ k. w (f k)) n
  total-two zero i j h k ne = absurd (omega arith)
  total-two (suc n) i j h k ne = elim (dec_lt i n) [
    | yes lt ↦ elim (dec_lt j n) [
      | yes lt' ↦ omega (arith, total-two n i j lt lt' ne)
      | no ge ↦ let e : j ≡ n = omega (arith, k, ge) in rw e (omega (arith, total-ge n i lt))
    ]
    | no ge ↦
        let e : i ≡ n = omega (arith, h, ge) in
        rw e (omega (arith, total-ge n j (omega (arith, k, ne, e))))
  ]

  pub total-le : (n b : ℕ) → ((x : A) → w x ≤ b) → total (λ k. w (f k)) n ≤ b * n
  total-le zero b bound = omega arith
  total-le (suc n) b bound =
      let e : b * suc n ≡ b * n + b = simp unary_clauses in
      rw e (omega (arith, total-le n b bound, bound (f n)))

  pub total-zero : (n : ℕ) → ((i : ℕ) → i < n → w (f i) ≡ 0) → total (λ k. w (f k)) n ≡ 0
  total-zero zero z = refl
  total-zero (suc n) z =
      omega (arith, z n (omega arith), total-zero n (λ i lt. z i (omega (arith, lt))))

  -- What is not zero in all is not zero somewhere.
  pub total-positive : (n : ℕ) → total (λ k. w (f k)) n ≢ 0 → (i : ℕ) × (i < n) × (w (f i) ≢ 0)
  total-positive zero h = absurd (h refl)
  total-positive (suc n) h = elim (dec_lt 0 (w (f n))) [
    | yes here ↦ (n, omega arith, λ z. omega (arith, here, z))
    | no nowhere ↦
        let (i, lt, live) = total-positive n (λ z. h (omega (arith, nowhere, z))) in
        (i, omega (arith, lt), live)
  ]

pub total_mono :
    {A : Type 0} (w v : A → ℕ) (f : ℕ → A) (n : ℕ)
    → ((x : A) → w x ≤ v x)
    → total (λ k. w (f k)) n ≤ total (λ k. v (f k)) n
total_mono w v f zero below = omega arith
total_mono w v f (suc n) below = omega (arith, total_mono w v f n below, below (f n))

-- How many of so many numbers from one on pass a test.
abbrev pub count_from : (ℕ → Bool) → ℕ → ℕ → ℕ
count_from p zero i = 0
count_from p (suc n) i = (if p i then 1 else 0) + count_from p n (suc i)

module _ (p : ℕ → Bool) (n i : ℕ) where
  pub count_from-miss : p i ≡ false → count_from p (suc n) i ≡ count_from p n (suc i)
  count_from-miss h = rw h (omega arith)

  pub count_from-hit : p i ≡ true → count_from p (suc n) i ≡ count_from p n (suc i) + 1
  count_from-hit h = rw h (omega arith)
