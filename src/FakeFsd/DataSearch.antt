-- ===== src/FakeFsd/DataSearch.antt =====
-- The search of FltGetVnodeLayout (FsdFilter/FltFakeFSD.cpp) for the member v_data, upwards in the
-- two vnodes that were created with known data.
use mac_osx_file_system_filt.Base.{
  ℕ, zero, suc, ◌+◌, ◌-◌, ◌*◌, ◌%◌, ◌^◌, ◌≤◌, ◌<◌, ◌≡◌, ◌≢◌, ◌⊎◌, inl, inr, refl, sym, ap, subst,
  ◌∙◌, Option-cases, Option, none, some, Bool, true, false, if◌then◌else◌, ◌==◌, not, ◌&&◌, ◌||◌,
  Bool-cases, Bool-clash, leb, arith, eq_of_==, ne_of_==,
}
use native.Mathlib.Decide.{dec_lt}
use mathlib.Core.Option.{none-ne-some, some-injective}
use mac_osx_file_system_filt.FakeFsd.Layout.{Memory, trunc_page}
use mac_osx_file_system_filt.VmPmap.{page_size}

-- vData1 and vData2
abbrev pub v_data1 : ℕ
v_data1 = 2 ^ 64 - 3

abbrev pub v_data2 : ℕ
v_data2 = 2 ^ 64 - 5

-- The word at an offset in a vnode.
abbrev pub member : Memory → ℕ → ℕ → ℕ
member k vnode offset = k.word_at ((vnode + offset) % 2 ^ 64)

-- The word at an offset crosses into a page other than the vnode's first, which is not wired.
unfoldable pub crosses_to_unmapped : Memory → ℕ → ℕ → Bool
crosses_to_unmapped k vnode offset =
    let last = (vnode + offset + 7) % 2 ^ 64 in
    not (trunc_page last == trunc_page vnode) && not (k.is_mapped last)

-- The search has failed at an offset.
unfoldable pub search_failed : Memory → ℕ → ℕ → ℕ → Bool
search_failed k vnode1 vnode2 offset =
    crosses_to_unmapped k vnode1 offset
    || (crosses_to_unmapped k vnode2 offset || leb page_size offset)

-- The loop, from the value of vNodeHeaderSize on; none when the search fails, for the code's -1. It
-- goes on while neither word is the data.
unfoldable pub data_search : ℕ → Memory → ℕ → ℕ → ℕ → Option ℕ
data_search zero k vnode1 vnode2 size = none
data_search (suc fuel) k vnode1 vnode2 size =
    let rest = data_search fuel k vnode1 vnode2 (size + 8) in
    if not (member k vnode1 size == v_data1) && not (member k vnode2 size == v_data2)
    then (if search_failed k vnode1 vnode2 (size + 8) then none else rest)
    else some size

-- vNodeHeaderSize, where 0 and -1 lead to an error. A page has 512 words.
unfoldable pub v_node_header_size : Memory → ℕ → ℕ → Option ℕ
v_node_header_size k vnode1 vnode2 = elim (data_search 512 k vnode1 vnode2 0) [
  | none ↦ none
  | some size ↦ if size == 0 then none else some size
]

or_true : (x y : Bool) → (x || (y || true)) ≡ true
or_true true y = refl
or_true false true = refl
or_true false false = refl

module _ (k : Memory) (vnode1 vnode2 : ℕ) where
  -- The loop goes on at an offset.
  abbrev pub goes_on : ℕ → Bool
  goes_on size = not (member k vnode1 size == v_data1) && not (member k vnode2 size == v_data2)

  -- One of the two members is the data.
  abbrev pub IsData : ℕ → Type 0
  IsData size = (member k vnode1 size ≡ v_data1) ⊎ (member k vnode2 size ≡ v_data2)

  stopped-IsData : (size : ℕ) → goes_on size ≡ false → IsData size
  stopped-IsData size h = elim (Bool-cases (member k vnode1 size == v_data1)) [
    | inl e ↦ inl (eq_of_== _ _ e)
    | inr e ↦ elim (Bool-cases (member k vnode2 size == v_data2)) [
      | inl f ↦ inr (eq_of_== _ _ f)
      | inr f ↦ absurd (Bool-clash true refl (sym (rw (e, f) refl) ∙ h))
    ]
  ]

  pub going-ne :
      (size : ℕ)
      → goes_on size ≡ true
      → (member k vnode1 size ≢ v_data1) × (member k vnode2 size ≢ v_data2)
  going-ne size h = elim (Bool-cases (member k vnode1 size == v_data1)) [
    | inl e ↦ absurd (Bool-clash true refl (sym h ∙ rw e refl))
    | inr e ↦ elim (Bool-cases (member k vnode2 size == v_data2)) [
      | inl f ↦ absurd (Bool-clash true refl (sym h ∙ rw (e, f) refl))
      | inr f ↦ (ne_of_== _ _ e, ne_of_== _ _ f)
    ]
  ]

  pub below_page : (size : ℕ) → search_failed k vnode1 vnode2 size ≡ false → size < page_size
  unfolding search_failed
  below_page size h = elim (Bool-cases (leb page_size size)) [
    | inr e ↦ ground arith
    | inl e ↦ absurd (
        Bool-clash _
          (ap (λ z. crosses_to_unmapped k vnode1 size || (crosses_to_unmapped k vnode2 size || z)) e
            ∙ or_true (crosses_to_unmapped k vnode1 size) (crosses_to_unmapped k vnode2 size))
          h)
  ]

  -- What a round does.
  pub round_found :
      (fuel size : ℕ)
      → goes_on size ≡ false
      → data_search (suc fuel) k vnode1 vnode2 size ≡ some size
  unfolding data_search
  round_found fuel size h = rw h refl

  pub round_failed :
      (fuel size : ℕ)
      → goes_on size ≡ true
      → search_failed k vnode1 vnode2 (size + 8) ≡ true
      → data_search (suc fuel) k vnode1 vnode2 size ≡ none
  unfolding data_search
  round_failed fuel size h f = rw (h, f) refl

  pub round_next :
      (fuel size : ℕ)
      → goes_on size ≡ true
      → search_failed k vnode1 vnode2 (size + 8) ≡ false
      → data_search (suc fuel) k vnode1 vnode2 size ≡ data_search fuel k vnode1 vnode2 (size + 8)
  unfolding data_search
  round_next fuel size h f = rw (h, f) refl

  pub next_offset :
      (fuel i : ℕ)
      → data_search fuel k vnode1 vnode2 (suc i * 8) ≡ data_search fuel k vnode1 vnode2 (i * 8 + 8)
  next_offset fuel i = ap (data_search fuel k vnode1 vnode2) (omega arith)

  pub data_search-IsData :
      (fuel i size : ℕ)
      → i * 8 < page_size
      → data_search fuel k vnode1 vnode2 (i * 8) ≡ some size
      → IsData size × (size < page_size) × (size % 8 ≡ 0)
  unfolding data_search
  data_search-IsData zero i size small h = absurd (none-ne-some size h)
  data_search-IsData (suc fuel) i size small h = elim (Bool-cases (goes_on (i * 8))) [
    | inr stop ↦
        let e = some-injective _ size (sym (round_found fuel (i * 8) stop) ∙ h) in
        subst (λ x. IsData x × (x < page_size) × (x % 8 ≡ 0)) e
          (stopped-IsData (i * 8) stop, small, omega arith)
    | inl on ↦ elim (Bool-cases (search_failed k vnode1 vnode2 (i * 8 + 8))) [
      | inl failed ↦ absurd (none-ne-some size (sym (round_failed fuel (i * 8) on failed) ∙ h))
      | inr well ↦
          data_search-IsData fuel (suc i) size (omega (arith, below_page (i * 8 + 8) well))
            (next_offset fuel i ∙ (sym (round_next fuel (i * 8) on well) ∙ h))
    ]
  ]

  data_search-before :
      (fuel i size j : ℕ)
      → data_search fuel k vnode1 vnode2 (i * 8) ≡ some size
      → i ≤ j
      → j * 8 < size
      → (member k vnode1 (j * 8) ≢ v_data1) × (member k vnode2 (j * 8) ≢ v_data2)
  unfolding data_search
  data_search-before zero i size j h le lt = absurd (none-ne-some size h)
  data_search-before (suc fuel) i size j h le lt = elim (Bool-cases (goes_on (i * 8))) [
    | inr stop ↦
        let e = some-injective _ size (sym (round_found fuel (i * 8) stop) ∙ h) in
        absurd (omega (arith, e))
    | inl on ↦ elim (Bool-cases (search_failed k vnode1 vnode2 (i * 8 + 8))) [
      | inl failed ↦ absurd (none-ne-some size (sym (round_failed fuel (i * 8) on failed) ∙ h))
      | inr well ↦ elim (Bool-cases (i == j)) [
        | inl e ↦
            subst (λ x. (member k vnode1 (x * 8) ≢ v_data1) × (member k vnode2 (x * 8) ≢ v_data2))
              (eq_of_== _ _ e) (going-ne (i * 8) on)
        | inr e ↦
            data_search-before fuel (suc i) size j
              (next_offset fuel i ∙ (sym (round_next fuel (i * 8) on well) ∙ h)) (ground arith) lt
      ]
    ]
  ]

  -- At the word of this number neither member is the data.
  abbrev pub IsNeither : ℕ → Type 0
  IsNeither j = (member k vnode1 (j * 8) ≢ v_data1) × (member k vnode2 (j * 8) ≢ v_data2)

  before :
      (size j : ℕ) → data_search 512 k vnode1 vnode2 0 ≡ some size → (size ≤ j * 8) ⊎ IsNeither j
  before size j e = elim (dec_lt (j * 8) size) [
    | yes lt ↦ inr (data_search-before 512 0 size j e (omega arith) lt)
    | no ge ↦ inl (omega (arith, ge))
  ]

  -- The size of the vnode's header that the search finds is the first offset at which the member
  -- of one of the two vnodes is its data, and it is above 0, within a page and that of a word: at
  -- every lower offset of a word neither member is the data.
  pub v_node_header_size-IsData :
      (size : ℕ)
      → v_node_header_size k vnode1 vnode2 ≡ some size
      → IsData size
        × (0 < size)
        × (size < page_size)
        × (size % 8 ≡ 0)
        × ((j : ℕ) → (size ≤ j * 8) ⊎ IsNeither j)
  unfolding v_node_header_size
  v_node_header_size-IsData size h = elim (Option-cases (data_search 512 k vnode1 vnode2 0)) [
    | inl e ↦ absurd (none-ne-some size (sym (rw (v_node_header_size, e) refl) ∙ h))
    | inr (found, e) ↦ elim (Bool-cases (found == 0)) [
      | inl z ↦ absurd (none-ne-some size (sym (rw (v_node_header_size, e, z) refl) ∙ h))
      | inr z ↦
          let same = some-injective found size (sym (rw (v_node_header_size, e, z) refl) ∙ h) in
          let e' = e ∙ ap some same in
          let (is_data, small, whole) = data_search-IsData 512 0 size (omega arith) e' in
          (is_data, omega (arith, ne_of_== _ _ z, same), small, whole, λ j. before size j e')
    ]
  ]
