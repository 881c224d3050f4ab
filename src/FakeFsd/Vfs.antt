-- ===== src/FakeFsd/Vfs.antt =====
-- The file system operations of the fake file system (FsdFilter/FltFakeFSD.cpp), all refused, and
-- the getters on the layout of a mount structure.
use mac_osx_file_system_filt.Base.{
  arith, ℕ, false, zero, suc, ◌<◌, ltb, not, ◌&&◌, Bool-cases, Bool-clash, count_from-miss,
  count_from-hit, ◌+◌, ◌*◌, ◌%◌, ◌^◌, ◌≤◌, ◌≡◌, count_from, ◌⊎◌, inl, inr, refl, ap, sym, List, [],
  ◌∷◌, Option, none, some, Bool, true, if◌then◌else◌, ◌==◌,
}
use mac_osx_file_system_filt.FakeFsd.{Errno, einval}
use mac_osx_file_system_filt.FakeFsd.Layout.{Memory, trunc_page}
use mac_osx_file_system_filt.FakeFsd.MountLayout.{
  VfsLayout, vfs_scan, flt_get_mount_layout, flt_get_mount_layout-IsFoundIn, IsVectorAt, IsFoundIn,
  IsVectorAt-known,
}
use mac_osx_file_system_filt.Hook.Registry.{return_success, return_error, vop_unknown_offset}

-- FltFakeFsdVfsMount
unfoldable pub flt_fake_fsd_vfs_mount : Errno
flt_fake_fsd_vfs_mount = einval

-- FltFakeFsdVfsUnmount
unfoldable pub flt_fake_fsd_vfs_unmount : Errno
flt_fake_fsd_vfs_unmount = einval

-- FltFakeFsdVfsRoot
unfoldable pub flt_fake_fsd_vfs_root : Errno
flt_fake_fsd_vfs_root = einval

-- FltFakeFsdVfsGetAttributes
unfoldable pub flt_fake_fsd_vfs_get_attributes : Errno
flt_fake_fsd_vfs_get_attributes = einval

-- FltFakeFsdVfsVGet
unfoldable pub flt_fake_fsd_vfs_vget : Errno
flt_fake_fsd_vfs_vget = einval

-- FltVfsOperation
pub data FltVfsOperation : Type 0 where
  vfs_op_unknown vfs_op_unmount vfs_op_max : FltVfsOperation

-- The values of the enumerators.
unfoldable pub vfs_number : FltVfsOperation → ℕ
vfs_number vfs_op_unknown = 0
vfs_number vfs_op_unmount = 1
vfs_number vfs_op_max = 2

-- FltVfsOperationDesc, without sampleFunction, which is never read.
pub record FltVfsOperationDesc : Type 0 where
  pub operation : FltVfsOperation
  pub offset : ℕ

-- gFltVfsOperationDesc, with the offset that it holds. The terminating entry is the end of the list.
unfoldable pub vfs_operation_descs : VfsLayout → List FltVfsOperationDesc
vfs_operation_descs l = record { operation = vfs_op_unmount; offset = l.unmount_offset } ∷ []

-- FltGetVfsOperationDesc, over the array.
unfoldable pub flt_get_vfs_operation_desc :
    List FltVfsOperationDesc → FltVfsOperation → Option FltVfsOperationDesc
flt_get_vfs_operation_desc [] operation = none
flt_get_vfs_operation_desc (d ∷ ds) operation =
    if vfs_number operation == vfs_number d.operation
    then some d
    else flt_get_vfs_operation_desc ds operation

-- FltGetVfsOperations
unfoldable pub flt_get_vfs_operations : Memory → VfsLayout → ℕ → ℕ
flt_get_vfs_operations k l mnt =
    if l.vector_offset == vop_unknown_offset
    then vop_unknown_offset
    else k.word_at ((mnt + l.vector_offset) % 2 ^ 64)

module _ (k : Memory) (is_function : ℕ → Bool) (vector : ℕ) where
  -- The word at a position of the vector is the address of a function.
  abbrev pub holds_function : ℕ → Bool
  holds_function i = is_function (k.word_at ((vector + i * 8) % 2 ^ 64))

  reached : (found : ℕ) → found < 4 → ltb (found + 1) 4 ≡ false → found + 1 ≡ 4
  reached found few h = ground (arith, few, h)

  -- When the loop over a candidate vector accepts it, so many words from its start on hold four
  -- functions.
  vfs_scan-functions :
      (n i found : ℕ)
      → found < 4
      → vfs_scan k is_function vector n i found ≡ true
      → (m : ℕ) × (m ≤ n) × (found + count_from holds_function m i ≡ 4)
  unfolding vfs_scan
  vfs_scan-functions zero i found few h = absurd (Bool-clash true refl (sym h))
  vfs_scan-functions (suc n) i found few h =
      let last = (vector + i * 8 + 7) % 2 ^ 64 in
      let leaves = not (trunc_page last == trunc_page vector) && not (k.is_mapped last) in
      elim (Bool-cases leaves) [
        | inl out ↦ absurd (Bool-clash true refl (sym (rw out at h)))
        | inr on ↦ elim (Bool-cases (holds_function i)) [
          | inr off ↦
              let below : ltb found 4 ≡ true = ground (arith, few) in
              let (m, le, e) = vfs_scan-functions n (suc i) found few (rw (on, off, below) at h) in
              (suc m, omega (arith, le), omega (arith, e, count_from-miss holds_function m i off))
          | inl here ↦ elim (Bool-cases (ltb (found + 1) 4)) [
            | inr enough ↦ (
              1,
              omega arith,
              omega (arith, reached found few enough, count_from-hit holds_function 0 i here),
            )
            | inl more ↦
                let (m, le, e) =
                  vfs_scan-functions n (suc i) (found + 1) (ground (arith, more))
                    (rw (on, here, more) at h) in
                (suc m, omega (arith, le), omega (arith, e, count_from-hit holds_function m i here))
          ]
        ]
      ]

  accepted :
      vfs_scan k is_function vector 50 0 0 ≡ true
      → (m : ℕ) × (m ≤ 50) × (count_from holds_function m 0 ≡ 4)
  accepted h =
      let (m, le, e) = vfs_scan-functions 50 0 0 (omega arith) h in (m, le, omega (arith, e))

module _ (k : Memory) (is_function : ℕ → Bool) (unmount : ℕ) where
  -- FltGetVfsOperations leads from one of these mounts to a mapped vector, among whose first words,
  -- at most fifty, four are addresses of functions.
  abbrev pub LeadsToVector : List ℕ → VfsLayout → Type 0
  LeadsToVector [] l = ⊥
  LeadsToVector (mnt ∷ mounts) l =
      ((k.is_mapped (flt_get_vfs_operations k l mnt) ≡ true)
        × ((m : ℕ) × (m ≤ 50)
            × (count_from (holds_function k is_function (flt_get_vfs_operations k l mnt)) m 0 ≡ 4)))
      ⊎ LeadsToVector mounts l

  flt_get_vfs_operations-IsVectorAt :
      (mnt : ℕ) (l : VfsLayout) (v : IsVectorAt k is_function unmount mnt l)
      → flt_get_vfs_operations k l mnt ≡ k.word_at ((mnt + v.position * 8) % 2 ^ 64)
  unfolding flt_get_vfs_operations
  flt_get_vfs_operations-IsVectorAt mnt l v =
      rw (IsVectorAt-known k is_function unmount mnt l v, v.offset) refl

  leads :
      (mounts : List ℕ) (l : VfsLayout)
      → IsFoundIn k is_function unmount mounts l
      → LeadsToVector mounts l
        × (flt_get_vfs_operation_desc (vfs_operation_descs l) vfs_op_unmount
            ≡ some (record { operation = vfs_op_unmount; offset = unmount }))
  unfolding flt_get_vfs_operation_desc vfs_operation_descs vfs_number
  leads [] l found = absurd found
  leads (mnt ∷ mounts) l (inl v) =
      let same = flt_get_vfs_operations-IsVectorAt mnt l v in
      (
        inl (
          rw same v.mapped,
          rw same
              (accepted k is_function (k.word_at ((mnt + v.position * 8) % 2 ^ 64)) v.functions),
        ),
        ap (λ n. some (record { operation = vfs_op_unmount; offset = n })) v.unmounts,
      )
  leads (mnt ∷ mounts) l (inr there) =
      let (vector, desc) = leads mounts l there in (inr vector, desc)

  -- When the offset of the vector is not known, FltGetMountLayout either returns an error and
  -- leaves the layout as it is, or succeeds; then FltGetVfsOperations leads from one of the mounts
  -- to a mapped vector among whose first words, at most fifty, four are addresses of functions, and
  -- FltGetVfsOperationDesc finds the offset of unmount.
  pub flt_get_vfs_operations-found :
      (mounts : List ℕ) (l : VfsLayout)
      → l.vector_offset ≡ vop_unknown_offset
      → let r = flt_get_mount_layout k is_function unmount mounts l in
        ((r.0 ≡ return_error) × (r.1 ≡ l))
        ⊎ ((r.0 ≡ return_success)
            × LeadsToVector mounts r.1
            × (flt_get_vfs_operation_desc (vfs_operation_descs r.1) vfs_op_unmount
                ≡ some (record { operation = vfs_op_unmount; offset = unmount })))
  flt_get_vfs_operations-found mounts l unknown =
      elim (flt_get_mount_layout-IsFoundIn k is_function unmount mounts l unknown) [
        | inl refused ↦ inl refused
        | inr (success, found) ↦
            let (vector, desc) = leads mounts _ found in inr (success, vector, desc)
      ]
