-- ===== src/FakeFsd/DataFailure.antt =====
-- The search for the member v_data of FsdFilter/FltFakeFSD.cpp, where it fails.
use mac_osx_file_system_filt.Base.{
  ℕ, zero, suc, ◌+◌, ◌*◌, ◌≤◌, ◌<◌, ◌≡◌, ◌⊎◌, inl, inr, refl, sym, ap, subst, ◌∙◌, Option-cases,
  none, some, true, ◌==◌, Bool-cases, Bool-clash, leb, arith, eq_of_==, ne_of_==,
}
use native.Mathlib.Decide.{dec_lt}
use mathlib.Core.Option.{none-ne-some}
use mac_osx_file_system_filt.FakeFsd.DataSearch.{
  crosses_to_unmapped, search_failed, data_search, v_node_header_size, goes_on, IsData, IsNeither,
  going-ne, below_page, round_found, round_next, next_offset, data_search-IsData,
}
use mac_osx_file_system_filt.FakeFsd.Layout.{Memory}
use mac_osx_file_system_filt.VmPmap.{page_size}

module _ (k : Memory) (vnode1 vnode2 : ℕ) where
  -- The search cannot go on to the word of this number: it reaches into an unmapped page in one of
  -- the two vnodes, or a page has been searched.
  abbrev pub IsBarred : ℕ → Type 0
  IsBarred j =
      (crosses_to_unmapped k vnode1 (j * 8) ≡ true)
      ⊎ (crosses_to_unmapped k vnode2 (j * 8) ≡ true)
      ⊎ (j ≡ 512)

  failed-IsBarred : (j : ℕ) → j ≤ 512 → search_failed k vnode1 vnode2 (j * 8) ≡ true → IsBarred j
  unfolding search_failed
  failed-IsBarred j small h = elim (Bool-cases (crosses_to_unmapped k vnode1 (j * 8))) [
    | inl one ↦ inl one
    | inr one ↦ elim (Bool-cases (crosses_to_unmapped k vnode2 (j * 8))) [
      | inl two ↦ inr (inl two)
      | inr two ↦ elim (Bool-cases (leb page_size (j * 8))) [
        | inl end ↦ inr (inr (ground (arith, end, small)))
        | inr within ↦ absurd (Bool-clash true refl (sym (rw (one, two, within) at h)))
      ]
    ]
  ]

  below_or : (x j : ℕ) → (x < j) ⊎ (j ≤ x) ⊎ IsNeither k vnode1 vnode2 x
  below_or x j = elim (dec_lt x j) [ yes lt ↦ inl lt | no ge ↦ inr (inl (omega (arith, ge))) ]

  -- A word that was passed at the position i, or before it or from j on.
  from_next :
      (i x j : ℕ)
      → goes_on k vnode1 vnode2 (i * 8) ≡ true
      → (x < suc i) ⊎ (j ≤ x) ⊎ IsNeither k vnode1 vnode2 x
      → (x < i) ⊎ (j ≤ x) ⊎ IsNeither k vnode1 vnode2 x
  from_next i x j on (inr rest) = inr rest
  from_next i x j on (inl le) = elim (Bool-cases (i == x)) [
    | inl e ↦ inr (
        inr (
          subst (IsNeither k vnode1 vnode2) (eq_of_== _ _ e) (going-ne k vnode1 vnode2 (i * 8) on)))
    | inr ne ↦ inl (omega (arith, le, ne_of_== _ _ ne))
  ]

  data_search-failed :
      (fuel i : ℕ)
      → i + fuel ≡ 512
      → i < 512
      → data_search fuel k vnode1 vnode2 (i * 8) ≡ none
      → (j : ℕ) × (i < j) × IsBarred j × ((x : ℕ) → (x < i) ⊎ (j ≤ x) ⊎ IsNeither k vnode1 vnode2 x)
  unfolding data_search
  data_search-failed zero i e small h = absurd (omega arith)
  data_search-failed (suc fuel) i e small h = elim (Bool-cases (goes_on k vnode1 vnode2 (i * 8))) [
    | inr stop ↦ absurd (none-ne-some _ (sym h ∙ round_found k vnode1 vnode2 fuel (i * 8) stop))
    | inl on ↦ elim (Bool-cases (search_failed k vnode1 vnode2 (i * 8 + 8))) [
      | inl failed ↦ (
        suc i,
        omega arith,
        failed-IsBarred (suc i) (omega arith)
            (subst (λ x. search_failed k vnode1 vnode2 x ≡ true) (omega arith) failed),
        λ x. from_next i x (suc i) on (below_or x (suc i)),
      )
      | inr well ↦
          let (j, later, barred, before) =
            data_search-failed fuel (suc i) (omega arith)
              (omega (arith, below_page k vnode1 vnode2 (i * 8 + 8) well))
              (next_offset k vnode1 vnode2 fuel i
                ∙ (sym (round_next k vnode1 vnode2 fuel (i * 8) on well) ∙ h)) in
          (j, omega (arith, later), barred, λ x. from_next i x j on (before x))
    ]
  ]

  not_below_zero :
      (x j : ℕ)
      → (x < 0) ⊎ (j ≤ x) ⊎ IsNeither k vnode1 vnode2 x
      → (j ≤ x) ⊎ IsNeither k vnode1 vnode2 x
  not_below_zero x j (inl lt) = absurd (omega (arith, lt))
  not_below_zero x j (inr rest) = rest

  -- The search ends without a size only when the members at offset 0 are already data, or when
  -- some words from the first on have been passed, at none of which either member is the data, and
  -- the next one reaches into an unmapped page or is the first behind a page.
  pub v_node_header_size-failed :
      v_node_header_size k vnode1 vnode2 ≡ none
      → IsData k vnode1 vnode2 0
        ⊎ ((j : ℕ) × (0 < j) × IsBarred j × ((x : ℕ) → (j ≤ x) ⊎ IsNeither k vnode1 vnode2 x))
  unfolding v_node_header_size
  v_node_header_size-failed h = elim (Option-cases (data_search 512 k vnode1 vnode2 0)) [
    | inl e ↦
        let (j, later, barred, passed) = data_search-failed 512 0 (omega arith) (omega arith) e in
        inr (j, later, barred, λ x. not_below_zero x j (passed x))
    | inr (found, e) ↦ elim (Bool-cases (found == 0)) [
      | inl z ↦
          inl
            (data_search-IsData k vnode1 vnode2 512 0 0 (omega arith)
              (e ∙ ap some (eq_of_== _ _ z))).0
      | inr z ↦ absurd (none-ne-some found (sym h ∙ rw (v_node_header_size, e, z) refl))
    ]
  ]
