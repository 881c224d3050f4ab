-- ===== src/FakeFsd/MountLayout.antt =====
-- The search of FltGetMountLayout (FsdFilter/FltFakeFSD.cpp) for the operation vector of a file
-- system in a mount structure.
use mac_osx_file_system_filt.Base.{
  ℕ, zero, suc, ◌+◌, ◌*◌, ◌%◌, ◌^◌, ◌≤◌, ◌<◌, ◌≡◌, ◌⊎◌, inl, inr, refl, sym, ap, subst, ◌∙◌, Bool,
  true, false, if◌then◌else◌, ◌==◌, not, ◌&&◌, Bool-cases, ltb, arith, List, [], ◌∷◌, ==_refl,
  ==_ne, Bool-clash,
}
use mac_osx_file_system_filt.FakeFsd.Layout.{Memory, trunc_page}
use mac_osx_file_system_filt.Hook.Registry.{
  IoReturn, return_success, return_error, vop_unknown_offset,
}

-- gVfsOperationVectorOffset, and the offset in gFltVfsOperationDesc of its one operation, unmount.
pub record VfsLayout : Type 0 where
  pub vector_offset : ℕ
  pub unmount_offset : ℕ

-- The loop over a candidate vector, from a position on for a number of rounds: whether it finds four
-- functions. is_function is DdIsFunctionAtKernelAddress.
unfoldable pub vfs_scan : Memory → (ℕ → Bool) → ℕ → ℕ → ℕ → ℕ → Bool
vfs_scan k is_function vector zero i found = false
vfs_scan k is_function vector (suc n) i found =
    let here = (vector + i * 8) % 2 ^ 64 in
    let last = (vector + i * 8 + 7) % 2 ^ 64 in
    let found' = if is_function (k.word_at here) then found + 1 else found in
    let rest = vfs_scan k is_function vector n (suc i) found' in
    if not (trunc_page last == trunc_page vector) && not (k.is_mapped last)
    then false
    else if ltb found' 4
    then rest
    else true

-- What is written when the vector is found. unmount is the offset of vfs_unmount in struct vfsops.
abbrev pub found_at : ℕ → ℕ → VfsLayout → VfsLayout
found_at unmount offset l = record {
  vector_offset = if l.vector_offset == vop_unknown_offset then offset else l.vector_offset;
  unmount_offset = unmount;
}

-- The loop over the words of the first 256 bytes of a mount structure.
unfoldable pub mount_search : Memory → (ℕ → Bool) → ℕ → ℕ → ℕ → ℕ → VfsLayout → VfsLayout
mount_search k is_function unmount mnt zero j l = l
mount_search k is_function unmount mnt (suc n) j l =
    let ptr = (mnt + j * 8) % 2 ^ 64 in
    let vector = k.word_at ptr in
    let is_found = k.is_mapped vector && vfs_scan k is_function vector 50 0 0 in
    let l' = if is_found then found_at unmount (j * 8) l else l in
    let rest = mount_search k is_function unmount mnt n (suc j) l' in
    if not (k.is_mapped ((mnt + j * 8 + 7) % 2 ^ 64))
    then l
    else if not (k.is_mapped vector)
    then rest
    else if l'.vector_offset == vop_unknown_offset
    then rest
    else l'

-- FltGetMountLayoutForMountStructure. 256 bytes hold 32 words.
unfoldable pub flt_get_mount_layout_for_mount_structure :
    Memory → (ℕ → Bool) → ℕ → ℕ → VfsLayout → IoReturn × VfsLayout
flt_get_mount_layout_for_mount_structure k is_function unmount mnt l =
    let l' = mount_search k is_function unmount mnt 32 0 l in
    (if l'.vector_offset == vop_unknown_offset then return_error else return_success, l')

-- vfs_iterate of FltGetMountLayout, over the mounts that it visits, with FltGetMountLayoutCallback:
-- it ends at the first success.
unfoldable pub iterate_mounts : Memory → (ℕ → Bool) → ℕ → List ℕ → VfsLayout → VfsLayout
iterate_mounts k is_function unmount [] l = l
iterate_mounts k is_function unmount (mnt ∷ mounts) l =
    let (rc, l') = flt_get_mount_layout_for_mount_structure k is_function unmount mnt l in
    let rest = iterate_mounts k is_function unmount mounts l' in
    if l'.vector_offset == vop_unknown_offset then rest else l'

-- FltGetMountLayout
unfoldable pub flt_get_mount_layout :
    Memory → (ℕ → Bool) → ℕ → List ℕ → VfsLayout → IoReturn × VfsLayout
flt_get_mount_layout k is_function unmount mounts l =
    let l' = iterate_mounts k is_function unmount mounts l in
    (if l'.vector_offset == vop_unknown_offset then return_error else return_success, l')

both_true : (x y : Bool) → (x && y) ≡ true → (x ≡ true) × (y ≡ true)
both_true true y h = (refl, h)
both_true false y h = absurd (Bool-clash true refl (sym h))

module _ (k : Memory) (is_function : ℕ → Bool) (unmount : ℕ) where
  -- The vector's offset is that of a word in the first 256 bytes of the mount structure which points
  -- to mapped memory with four functions among its first 50 words.
  pub record IsVectorAt (mnt : ℕ) (l : VfsLayout) : Type 0 where
    pub position : ℕ
    pub within : position < 32
    pub offset : l.vector_offset ≡ position * 8
    pub mapped : k.is_mapped (k.word_at ((mnt + position * 8) % 2 ^ 64)) ≡ true
    pub functions : vfs_scan k is_function (k.word_at ((mnt + position * 8) % 2 ^ 64)) 50 0 0 ≡ true
    pub unmounts : l.unmount_offset ≡ unmount

  -- What a round of the loop does, in a layout without an offset.
  module _ (mnt n j : ℕ) (l : VfsLayout) (unknown : l.vector_offset ≡ vop_unknown_offset) where
    is_unknown : (l.vector_offset == vop_unknown_offset) ≡ true
    is_unknown = ap (λ x. x == vop_unknown_offset) unknown ∙ ==_refl vop_unknown_offset

    round_unmapped :
        k.is_mapped ((mnt + j * 8 + 7) % 2 ^ 64) ≡ false
        → mount_search k is_function unmount mnt (suc n) j l ≡ l
    unfolding mount_search
    round_unmapped e = rw e refl

    round_next :
        k.is_mapped ((mnt + j * 8 + 7) % 2 ^ 64) ≡ true
        → (k.is_mapped (k.word_at ((mnt + j * 8) % 2 ^ 64))
            && vfs_scan k is_function (k.word_at ((mnt + j * 8) % 2 ^ 64)) 50 0 0)
          ≡ false
        → mount_search k is_function unmount mnt (suc n) j l
          ≡ mount_search k is_function unmount mnt n (suc j) l
    unfolding mount_search
    round_next e f = elim (Bool-cases (k.is_mapped (k.word_at ((mnt + j * 8) % 2 ^ 64)))) [
      | inr a ↦ rw (e, a) refl
      | inl a ↦
          elim (Bool-cases (vfs_scan k is_function (k.word_at ((mnt + j * 8) % 2 ^ 64)) 50 0 0)) [
            | inl b ↦ absurd (Bool-clash true refl (sym (rw (a, b) refl) ∙ f))
            | inr b ↦ rw (e, a, b, is_unknown) refl
          ]
    ]

    round_found :
        j < 32
        → k.is_mapped ((mnt + j * 8 + 7) % 2 ^ 64) ≡ true
        → k.is_mapped (k.word_at ((mnt + j * 8) % 2 ^ 64)) ≡ true
        → vfs_scan k is_function (k.word_at ((mnt + j * 8) % 2 ^ 64)) 50 0 0 ≡ true
        → mount_search k is_function unmount mnt (suc n) j l
          ≡ record { vector_offset = j * 8; unmount_offset = unmount }
    unfolding mount_search
    round_found small e f g =
        rw (e, f, g, is_unknown, ==_ne (j * 8) vop_unknown_offset (λ h. absurd (omega (arith, h))))
          refl

  -- The loop finds a vector or leaves the layout as it is.
  mount_search-IsVectorAt :
      (mnt n j : ℕ) (l : VfsLayout)
      → l.vector_offset ≡ vop_unknown_offset
      → j + n ≤ 32
      → (mount_search k is_function unmount mnt n j l ≡ l)
        ⊎ IsVectorAt mnt (mount_search k is_function unmount mnt n j l)
  unfolding mount_search
  mount_search-IsVectorAt mnt zero j l unknown small = inl refl
  mount_search-IsVectorAt mnt (suc n) j l unknown small =
      elim (Bool-cases (k.is_mapped ((mnt + j * 8 + 7) % 2 ^ 64))) [
        | inr e ↦ inl (round_unmapped mnt n j l unknown e)
        | inl e ↦
            elim (Bool-cases (
              k.is_mapped (k.word_at ((mnt + j * 8) % 2 ^ 64))
              && vfs_scan k is_function (k.word_at ((mnt + j * 8) % 2 ^ 64)) 50 0 0)) [
                | inr f ↦
                    subst (λ x. (x ≡ l) ⊎ IsVectorAt mnt x) (sym (round_next mnt n j l unknown e f))
                      (mount_search-IsVectorAt mnt n (suc j) l unknown (omega arith))
                | inl f ↦
                    let (a, b) = both_true _ _ f in
                    subst (λ x. (x ≡ l) ⊎ IsVectorAt mnt x)
                      (sym (round_found mnt n j l unknown (omega arith) e a b))
                      (inr (record {
                        position = j;
                        within = omega arith;
                        offset = refl;
                        mapped = a;
                        functions = b;
                        unmounts = refl;
                      }))
              ]
      ]

  -- A mount of the list.
  abbrev pub IsFoundIn : List ℕ → VfsLayout → Type 0
  IsFoundIn [] l = ⊥
  IsFoundIn (mnt ∷ mounts) l = IsVectorAt mnt l ⊎ IsFoundIn mounts l

  pub IsVectorAt-known :
      (mnt : ℕ) (l : VfsLayout) → IsVectorAt mnt l → (l.vector_offset == vop_unknown_offset) ≡ false
  IsVectorAt-known mnt l at_mnt =
      ==_ne _ _ (λ h. absurd (omega (arith, h, at_mnt.offset, at_mnt.within)))

  IsFoundIn-known :
      (mounts : List ℕ) (l : VfsLayout)
      → IsFoundIn mounts l
      → (l.vector_offset == vop_unknown_offset) ≡ false
  IsFoundIn-known [] l found = absurd found
  IsFoundIn-known (mnt ∷ mounts) l (inl here) = IsVectorAt-known mnt l here
  IsFoundIn-known (mnt ∷ mounts) l (inr there) = IsFoundIn-known mounts l there

  module _ (mnt : ℕ) (mounts : List ℕ) (l : VfsLayout) where
    iterate_next :
        (l.vector_offset == vop_unknown_offset) ≡ true
        → mount_search k is_function unmount mnt 32 0 l ≡ l
        → iterate_mounts k is_function unmount (mnt ∷ mounts) l
          ≡ iterate_mounts k is_function unmount mounts l
    unfolding iterate_mounts flt_get_mount_layout_for_mount_structure
    iterate_next unknown e = rw (e, unknown) refl

    iterate_found :
        (mount_search k is_function unmount mnt 32 0 l).vector_offset == vop_unknown_offset ≡ false
        → iterate_mounts k is_function unmount (mnt ∷ mounts) l
          ≡ mount_search k is_function unmount mnt 32 0 l
    unfolding iterate_mounts flt_get_mount_layout_for_mount_structure
    iterate_found known = rw known refl

  iterate_mounts-IsFoundIn :
      (mounts : List ℕ) (l : VfsLayout)
      → (l.vector_offset ≡ vop_unknown_offset)
      → (iterate_mounts k is_function unmount mounts l ≡ l)
        ⊎ IsFoundIn mounts (iterate_mounts k is_function unmount mounts l)
  unfolding iterate_mounts
  iterate_mounts-IsFoundIn [] l unknown = inl refl
  iterate_mounts-IsFoundIn (mnt ∷ mounts) l unknown =
      elim (mount_search-IsVectorAt mnt 32 0 l unknown (omega arith)) [
        | inl e ↦
            let next = iterate_next mnt mounts l (is_unknown mnt 0 0 l unknown) e in
            elim (iterate_mounts-IsFoundIn mounts l unknown) [
              | inl f ↦ inl (next ∙ f)
              | inr f ↦ inr (inr (subst (IsFoundIn mounts) (sym next) f))
            ]
        | inr here ↦
            let found = iterate_found mnt mounts l (IsVectorAt-known mnt _ here) in
            inr (inl (subst (IsVectorAt mnt) (sym found) here))
      ]

  -- When the offset of the vector is not known, FltGetMountLayout either returns an error and
  -- leaves the layout as it is, or succeeds with a vector that is found in one of the mounts.
  pub flt_get_mount_layout-IsFoundIn :
      (mounts : List ℕ) (l : VfsLayout)
      → l.vector_offset ≡ vop_unknown_offset
      → let r = flt_get_mount_layout k is_function unmount mounts l in
        ((r.0 ≡ return_error) × (r.1 ≡ l)) ⊎ ((r.0 ≡ return_success) × IsFoundIn mounts r.1)
  unfolding flt_get_mount_layout
  flt_get_mount_layout-IsFoundIn mounts l unknown =
      elim (iterate_mounts-IsFoundIn mounts l unknown) [
        | inl e ↦ inl (
          ap (λ x. if x.vector_offset == vop_unknown_offset then return_error else return_success) e
              ∙ ap (λ b. if b then return_error else return_success) (is_unknown 0 0 0 l unknown),
          e,
        )
        | inr f ↦ inr (rw (IsFoundIn-known mounts _ f) refl, f)
      ]
