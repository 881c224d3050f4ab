-- ===== src/Ght/Create.antt =====
-- ght_create of FsdFilter/CommonHashTable.cpp: the size of the table, and the empty table.
use native.Mathlib.Nat.{pow-suc}
use Prim.Native.Nat.{bit_and, digits, min, bit_and-bitwise}
use mac_osx_file_system_filt.Base.{
  ℕ, zero, suc, ◌+◌, ◌-◌, ◌/◌, ◌%◌, ◌^◌, ◌≤◌, ◌<◌, ◌≡◌, ◌≢◌, ◌⊎◌, inl, inr, refl, sym, ap, subst,
  ◌∙◌, Bool, false, Bool-cases, ◌==◌, eq_of_==, [], some, arith, ltb,
}
use mac_osx_file_system_filt.Ght.{GhtHashKey, Memory, GhtHashTable}
use mac_osx_file_system_filt.Ght.Blocks.{create-table}
use mac_osx_file_system_filt.Ght.Correct.{Holds, view-Holds}
use mac_osx_file_system_filt.Ght.Linked.{IsLinked}
use mac_osx_file_system_filt.Ght.Table.{Kernel, bucket_of, new_table, ght_create, size_loop}
use mac_osx_file_system_filt.Ght.View.{view}

and_digits-le : (n a b : ℕ) → digits (λ b. zero) min n a b ≤ b
and_digits-le zero a b = omega arith
and_digits-le (suc n) zero b = omega arith
and_digits-le (suc n) (suc a) b = omega (arith, and_digits-le n (suc a / 2) (b / 2))

pub bit_and-le : (a b : ℕ) → bit_and a b ≤ b
bit_and-le a b = subst (λ x. x ≤ b) (sym (bit_and-bitwise a b)) (and_digits-le a a b)

-- The loop has stopped at 2 ^ j, the least power of two that reaches the size wanted.
abbrev pub IsSized : ℕ → ℕ × ℕ → ℕ → Type 0
IsSized wanted r j =
    (r ≡ (2 ^ j, j + 1)) × (j ≤ 31) × (wanted ≤ 2 ^ j) × ((j ≡ 0) ⊎ (2 ^ (j - 1) < wanted))

no_larger : (k wanted : ℕ) → k ≡ 31 → 2 ^ k < wanted → wanted ≤ 2 ^ 31 → ⊥
no_larger k wanted e less w =
    let less' : 2 ^ 31 < wanted = subst (λ x. 2 ^ x < wanted) e less in omega arith

size_loop-IsSized :
    (fuel wanted k : ℕ)
    → k + fuel ≡ 32
    → k ≤ 31
    → wanted ≤ 2 ^ 31
    → (k ≡ 0) ⊎ (2 ^ (k - 1) < wanted)
    → (j : ℕ) × IsSized wanted (size_loop fuel wanted (2 ^ k) (k + 1)) j
unfolding size_loop
size_loop-IsSized zero wanted k e l w m = absurd (omega arith)
size_loop-IsSized (suc fuel) wanted k e l w m = elim (Bool-cases (ltb (2 ^ k) wanted)) [
  | inr no_more ↦ rw no_more (k, (refl, l, ground arith, m))
  | inl more ↦
      let less : 2 ^ k < wanted = ground arith in
      let below : k < 31 = elim (Bool-cases (k == 31)) [
        | inl top ↦ absurd (no_larger k wanted (eq_of_== _ _ top) less w)
        | inr e' ↦ ground arith
      ] in
      let small : ((k + 1) % 32) ≡ k + 1 = omega arith in
      rw (more, small)
        (size_loop-IsSized fuel wanted (k + 1) (omega arith) (omega arith) w
          (inr (subst (λ x. 2 ^ x < wanted) (omega arith) less)))
]

pow_pos : (j : ℕ) → 0 < 2 ^ j
pow_pos zero = omega arith
pow_pos (suc j) = rw (pow-suc 2 j) (omega (arith, pow_pos j))

-- For a size asked for of at most 2 ^ 31, the size of the table that ght_create returns is the
-- least power of two that reaches it, the mask is one below that, and every key's bucket is below
-- it.
pub create-IsSized :
    (kernel : Kernel) (i_size : ℕ) (non_block : Bool) (t : GhtHashTable)
    → i_size ≤ 2 ^ 31
    → (ght_create kernel i_size non_block).0 ≡ some t
    → (j : ℕ) × (t.i_size ≡ 2 ^ j)
      × (t.i_size_mask ≡ 2 ^ j - 1)
      × (i_size ≤ t.i_size)
      × ((j ≡ 0) ⊎ (2 ^ (j - 1) < i_size))
      × ((k : GhtHashKey) → bucket_of t k < t.i_size)
create-IsSized kernel i_size non_block t w h =
    let (j, s) = size_loop-IsSized 32 i_size 0 (omega arith) (omega arith) w (inl refl) in
    let e = create-table kernel i_size non_block t h in
    let size : t.i_size ≡ 2 ^ j = ap GhtHashTable.i_size e ∙ ap (λ r. r.0) s.0 in
    let mask : t.i_size_mask ≡ 2 ^ j - 1 =
      ap GhtHashTable.i_size_mask e
      ∙ (ap (λ r. 2 ^ (r.1 - 1) - 1) s.0 ∙ ap (λ x. 2 ^ x - 1) (omega arith)) in
    (
      j,
      size,
      mask,
      subst (λ x. i_size ≤ x) (sym size) s.2,
      s.3,
      λ k. omega (arith, size, mask, bit_and-le (t.fn_hash k) t.i_size_mask, pow_pos j),
    )

-- Where the kernel gives only memory that is free, the table that ght_create returns is valid and
-- finds NULL for every key, in any memory.
pub create-Holds :
    (kernel : Kernel) (i_size : ℕ) (non_block : Bool) (t : GhtHashTable) (m : Memory)
    → ((b : Bool) (live : ℕ → Bool)
        → kernel.mac_kalloc b live ≢ 0
        → live (kernel.mac_kalloc b live) ≡ false)
    → (ght_create kernel i_size non_block).0 ≡ some t
    → Holds t m kernel.mac_kalloc (λ k. 0)
create-Holds kernel i_size non_block t m law h =
    subst (λ t. Holds t m kernel.mac_kalloc (λ k. 0))
      (sym (create-table kernel i_size non_block t h))
      (view-Holds _ m _ empty _ refl
        (record { no_heuristics = refl; no_rehash = refl; no_limit = refl; fresh = law })
        (λ j. refl))
  where
    empty : IsLinked (view (new_table kernel (size_loop 32 i_size 1 1) non_block) m)
    empty = record {
      entries = λ b. [];
      chained = λ b. refl;
      located = λ b. tt;
      unique = λ b. tt;
      short = λ b. omega arith;
    }
