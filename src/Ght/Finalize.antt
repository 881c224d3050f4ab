-- ===== src/Ght/Finalize.antt =====
-- ght_finalize of FsdFilter/CommonHashTable.cpp frees the entries of a table.
use mac_osx_file_system_filt.Base.{
  ℕ, zero, suc, ◌+◌, ◌≤◌, ◌<◌, ◌≡◌, inl, inr, refl, sym, ap, subst, ◌∙◌, Bool, false, Bool-cases,
  ◌==◌, ==_refl, ==_ne, eq_of_==, update, List, [], ◌∷◌, All, length, arith,
}
use mac_osx_file_system_filt.Ght.{Memory, GhtHashTable}
use mac_osx_file_system_filt.Ght.Bucket.{free_entry_chain, he_finalize, set_entry}
use mac_osx_file_system_filt.Ght.Chain.{Chain, IsNotIn, Mem}
use mac_osx_file_system_filt.Ght.Correct.{IsValid}
use mac_osx_file_system_filt.Ght.Iterate.{ght_finalize, finalize_loop}

-- Addresses that are marked as free, those of a list and those of the lists of n buckets.
abbrev pub free_all : List ℕ → (ℕ → Bool) → ℕ → Bool
free_all [] live = live
free_all (a ∷ l) live = free_all l (update live a false)

abbrev pub free_buckets : (ℕ → List ℕ) → ℕ → ℕ → (ℕ → Bool) → ℕ → Bool
free_buckets entries zero i live = live
free_buckets entries (suc n) i live = free_buckets entries n (i + 1) (free_all (entries i) live)

abbrev with_live : Memory → (ℕ → Bool) → Memory
with_live m live = record m { live = live }

free_entry_chain-live :
    (fuel : ℕ) (m : Memory) (live : ℕ → Bool) (prev p : ℕ) (l : List ℕ)
    → length l ≤ fuel
    → Chain m.p_next m.p_prev prev p l
    → free_entry_chain fuel (with_live m live) p ≡ with_live m (free_all l live)
unfolding free_entry_chain he_finalize
free_entry_chain-live zero m live prev p [] h c = refl
free_entry_chain-live (suc fuel) m live prev p [] h c = rw c refl
free_entry_chain-live zero m live prev p (a ∷ l) h c = absurd (omega arith)
free_entry_chain-live (suc fuel) m live prev p (a ∷ l) h c =
    rw (c.0, ==_ne a 0 c.1)
      (free_entry_chain-live fuel m (update live a false) a (m.p_next a) l (omega arith) c.3)

module _ (m : Memory) (entries : ℕ → List ℕ)
    (short : (b : ℕ) → length (entries b) ≤ m.allocations) where
  finalize_loop-live :
      (n i : ℕ) (t : GhtHashTable) (live : ℕ → Bool)
      → ((b : ℕ) → i ≤ b → Chain m.p_next m.p_prev 0 (t.pp_entries b) (entries b))
      → (finalize_loop n i t (with_live m live)).1 ≡ with_live m (free_buckets entries n i live)
  unfolding finalize_loop
  finalize_loop-live zero i t live c = refl
  finalize_loop-live (suc n) i t live c =
      ap (λ m'. (finalize_loop n (i + 1) (set_entry t i 0) m').1)
        (free_entry_chain-live m.allocations m live 0 (t.pp_entries i) (entries i) (short i)
          (c i (omega arith)))
      ∙ finalize_loop-live n (i + 1) (set_entry t i 0) (free_all (entries i) live)
          (λ b le. rw (==_ne i b (λ e. absurd (omega arith))) (c b (omega arith)))

-- What is free stays free, and what is in no list stays as it is.
free_all-free : (l : List ℕ) (live : ℕ → Bool) (p : ℕ) → live p ≡ false → free_all l live p ≡ false
free_all-free [] live p h = h
free_all-free (a ∷ l) live p h =
    free_all-free l _ p (elim (Bool-cases (a == p)) [ inl e ↦ rw e refl | inr e ↦ rw e h ])

free_all-Mem : (l : List ℕ) (live : ℕ → Bool) (p : ℕ) → Mem p l → free_all l live p ≡ false
free_all-Mem [] live p mem = absurd mem
free_all-Mem (a ∷ l) live p (inl e) = free_all-free l _ p (rw (e, ==_refl p) refl)
free_all-Mem (a ∷ l) live p (inr mem) = free_all-Mem l _ p mem

free_all-other : (l : List ℕ) (live : ℕ → Bool) (p : ℕ) → IsNotIn p l → free_all l live p ≡ live p
free_all-other [] live p out = refl
free_all-other (a ∷ l) live p out = free_all-other l _ p out.1 ∙ rw (==_ne a p out.0) refl

module _ (entries : ℕ → List ℕ) (p : ℕ) where
  free_buckets-free :
      (n i : ℕ) (live : ℕ → Bool) → live p ≡ false → free_buckets entries n i live p ≡ false
  free_buckets-free zero i live h = h
  free_buckets-free (suc n) i live h =
      free_buckets-free n (i + 1) _ (free_all-free (entries i) live p h)

  free_buckets-Mem :
      (n i : ℕ) (live : ℕ → Bool) (b : ℕ)
      → i ≤ b
      → b < i + n
      → Mem p (entries b)
      → free_buckets entries n i live p ≡ false
  free_buckets-Mem zero i live b le lt mem = absurd (omega arith)
  free_buckets-Mem (suc n) i live b le lt mem = elim (Bool-cases (i == b)) [
    | inl e ↦ free_buckets-free n (i + 1) _ (
        free_all-Mem (entries i) live p (subst (λ c. Mem p (entries c)) (sym (eq_of_== _ _ e)) mem))
    | inr e ↦ free_buckets-Mem n (i + 1) _ b (ground arith) (omega arith) mem
  ]

  free_buckets-other :
      (n i : ℕ) (live : ℕ → Bool)
      → ((b : ℕ) → IsNotIn p (entries b))
      → free_buckets entries n i live p ≡ live p
  free_buckets-other zero i live out = refl
  free_buckets-other (suc n) i live out =
      free_buckets-other n (i + 1) _ out ∙ free_all-other (entries i) live p (out i)

All-of-Mem {κ} : (P : ℕ → Type κ) (l : List ℕ) → ((p : ℕ) → Mem p l → P p) → All P l
All-of-Mem P [] f = tt
All-of-Mem P (a ∷ l) f = (f a (inl refl), All-of-Mem P l (λ p mem. f p (inr mem)))

module _ (t : GhtHashTable) (m : Memory) (h : IsValid t m) where
  finalize-live :
      (ght_finalize t m).0 ≡ with_live m (free_buckets h.linked.entries t.i_size 0 m.live)
  unfolding ght_finalize
  finalize-live =
      finalize_loop-live m h.linked.entries h.linked.short t.i_size 0 t m.live
        (λ b le. h.linked.chained b)

  -- After ght_finalize of a valid table every entry of a bucket below the size is free, and every
  -- address that is no entry of the table is as it was.
  pub finalize-free_buckets :
      (b p : ℕ)
      → b < t.i_size
      → ((c : ℕ) → IsNotIn p (h.linked.entries c))
      → All (λ a. (ght_finalize t m).0.live a ≡ false) (h.linked.entries b)
        × ((ght_finalize t m).0.live p ≡ m.live p)
  finalize-free_buckets b p lt out = (
    All-of-Mem _ (h.linked.entries b) (λ a mem.
        ap (λ m'. m'.live a) finalize-live
        ∙ free_buckets-Mem h.linked.entries a t.i_size 0 m.live b (omega arith) (omega arith) mem),
    ap (λ m'. m'.live p) finalize-live
        ∙ free_buckets-other h.linked.entries p t.i_size 0 m.live out,
  )
