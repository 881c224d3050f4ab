-- ===== src/FakeFsd/VnodeLayout.antt =====
-- FltGetVnodeLayout of FsdFilter/FltFakeFSD.cpp: the fake file system is registered, two vnodes are
-- created and searched, and everything is taken back.
use mac_osx_file_system_filt.Base.{
  ℕ, ◌/◌, ◌^◌, ◌<◌, ◌≡◌, ◌≢◌, refl, ◌∙◌, inl, inr, Option, none, some, List, not, if◌then◌else◌,
  ◌==◌, Bool-cases, Option-cases, ==_ne, arith,
}
use mac_osx_file_system_filt.FakeFsd.DataSearch.{v_node_header_size}
use mac_osx_file_system_filt.FakeFsd.FunctionAt.{Disassembler, dd_is_function_at_kernel_address}
use mac_osx_file_system_filt.FakeFsd.Layout.{Memory, vop_search}
use mac_osx_file_system_filt.FakeFsd.Lifecycle.{
  FakeFsdState, FsdEnv, is_error, flt_register_fake_fsd, flt_unregister_fake_fsd,
  flt_fake_fsd_create_vnode, flt_fake_fsd_reclaim,
}
use mac_osx_file_system_filt.FakeFsd.MountLayout.{VfsLayout, flt_get_mount_layout}
use mac_osx_file_system_filt.Hook.Registry.{IoReturn, return_error, is_success}
use mac_osx_file_system_filt.Vnop.Tables.{FltVnodeOpvOffsetDesc}

-- What the kernel answers at the registration and for the first vnode, and for the second vnode and
-- at the removal; the memory; the disassembler; the offset of vfs_unmount; the mounts that
-- vfs_iterate visits; and vnode_recycle with vnode_put, which reclaim the vnode.
pub record LayoutEnv : Type 0 where
  pub first : FsdEnv
  pub second : FsdEnv
  pub memory : Memory
  pub distorm_decompose64 : Disassembler
  pub unmount : ℕ
  pub mounts : List ℕ
  pub vnode_put : ℕ → FakeFsdState → FakeFsdState

-- The state of the fake file system, gFltVnodeOpvOffsetDesc, gVNodeVopOffset and the mount layout.
pub record LayoutState : Type 0 where
  pub fsd : FakeFsdState
  pub descs : List FltVnodeOpvOffsetDesc
  pub v_node_vop_offset : ℕ
  pub vfs : VfsLayout

-- From the two vnodes to __exit.
unfoldable pub search_layout : LayoutEnv → LayoutState → ℕ → ℕ → IoReturn × LayoutState
search_layout k s vnode1 vnode2 = elim (v_node_header_size k.memory vnode1 vnode2) [
  | none ↦ (return_error, s)
  | some size ↦
      let (offset, descs) = vop_search k.memory vnode1 (size / 8) s.descs in
      elim offset [
        | none ↦ (return_error, record s { descs = descs })
        | some n ↦
            let is_function = dd_is_function_at_kernel_address k.memory k.distorm_decompose64 in
            let (rc, vfs) = flt_get_mount_layout k.memory is_function k.unmount k.mounts s.vfs in
            (rc, record s { descs = descs; v_node_vop_offset = n; vfs = vfs })
      ]
]

-- vnode_recycle and vnode_put at __exit.
unfoldable pub put_vnode : LayoutEnv → Option ℕ → FakeFsdState → FakeFsdState
put_vnode k none s = s
put_vnode k (some v) s = if v == 0 then s else k.vnode_put v s

-- The code at __exit.
unfoldable pub exit_layout : LayoutEnv → Option ℕ → Option ℕ → LayoutState → LayoutState
exit_layout k vnode1 vnode2 s =
    let put = put_vnode k vnode2 (put_vnode k vnode1 s.fsd) in
    record s { fsd = (flt_unregister_fake_fsd k.second put).1 }

unfoldable pub flt_get_vnode_layout : LayoutEnv → LayoutState → IoReturn × LayoutState
flt_get_vnode_layout k s =
    let (rc, registered) = flt_register_fake_fsd k.first s.fsd in
    let (rc1, vnode1, one) = flt_fake_fsd_create_vnode k.first registered in
    let (rc2, vnode2, two) = flt_fake_fsd_create_vnode k.second one in
    if not (is_success rc)
    then (rc, exit_layout k none none (record s { fsd = registered }))
    else elim vnode1 [
      | none ↦ (rc1, exit_layout k none none (record s { fsd = one }))
      | some v1 ↦ elim vnode2 [
        | none ↦ (rc2, exit_layout k (some v1) none (record s { fsd = two }))
        | some v2 ↦
            let (rc3, searched) = search_layout k (record s { fsd = two }) v1 v2 in
            (rc3, exit_layout k (some v1) (some v2) searched)
      ]
    ]

module _ (k : LayoutEnv) where
  unregister-count :
      (f : FsdEnv) (s : FakeFsdState) → (flt_unregister_fake_fsd f s).1.vnode_count ≡ s.vnode_count
  unfolding flt_unregister_fake_fsd
  unregister-count f s = elim (Bool-cases (s.fsd_handle == 0)) [
    | inl e ↦ rw e refl
    | inr e ↦ elim (Bool-cases (is_error (f.vfs_fsremove s.fsd_handle))) [
      | inl bad ↦ rw (e, bad) refl
      | inr well ↦ rw (e, well) refl
    ]
  ]

  register-count :
      (f : FsdEnv) (s : FakeFsdState) → (flt_register_fake_fsd f s).1.vnode_count ≡ s.vnode_count
  unfolding flt_register_fake_fsd
  register-count f s = elim (Bool-cases (is_error f.vfs_fsadd.0)) [
    | inl bad ↦ rw bad refl
    | inr well ↦ rw well refl
  ]

  search_layout-fsd : (s : LayoutState) (v1 v2 : ℕ) → (search_layout k s v1 v2).1.fsd ≡ s.fsd
  unfolding search_layout
  search_layout-fsd s v1 v2 = elim (Option-cases (v_node_header_size k.memory v1 v2)) [
    | inl e ↦ rw (search_layout, e) refl
    | inr (size, e) ↦ elim (Option-cases (vop_search k.memory v1 (size / 8) s.descs).0) [
      | inl f ↦ rw (search_layout, e, f) refl
      | inr (n, f) ↦ rw (search_layout, e, f) refl
    ]
  ]

  -- The count after the code at __exit, which reclaims the vnodes that there are.
  exit-count :
      (v1 v2 : Option ℕ) (s : LayoutState)
      → (exit_layout k v1 v2 s).fsd.vnode_count
        ≡ (put_vnode k v2 (put_vnode k v1 s.fsd)).vnode_count
  unfolding exit_layout
  exit-count v1 v2 s = unregister-count k.second (put_vnode k v2 (put_vnode k v1 s.fsd))

  module _ (reclaims : (v : ℕ) (s : FakeFsdState) → k.vnode_put v s ≡ (flt_fake_fsd_reclaim s).1)
      (some1 : k.first.vnode_create.1 ≢ 0) (some2 : k.second.vnode_create.1 ≢ 0) where
    -- FltGetVnodeLayout gives back every vnode that it creates: on each of its paths the count is
    -- in the end what it was, where vnode_recycle and vnode_put reclaim a vnode, a created vnode is
    -- not NULL, and the count is a 32-bit number.
    pub flt_get_vnode_layout-count :
        (s : LayoutState)
        → s.fsd.vnode_count < 2 ^ 32
        → (flt_get_vnode_layout k s).1.fsd.vnode_count ≡ s.fsd.vnode_count
    unfolding flt_get_vnode_layout flt_register_fake_fsd flt_fake_fsd_create_vnode put_vnode
        flt_fake_fsd_reclaim
    flt_get_vnode_layout-count s small = elim (Bool-cases (is_error k.first.vfs_fsadd.0)) [
      | inl a ↦ rw a (exit-count none none s)
      | inr a ↦ elim (Bool-cases (is_error k.first.vnode_create.0)) [
        | inl b ↦ rw (a, b) (exit-count none none _ ∙ rw (a, b) refl)
        | inr b ↦ elim (Bool-cases (is_error k.second.vnode_create.0)) [
          | inl c ↦
              rw (a, b, c)
                (exit-count (some _) none _
                  ∙ rw (a, b, c, ==_ne _ 0 some1, reclaims) (omega (arith, small)))
          | inr c ↦
              rw (a, b, c)
                (exit-count (some _) (some _) _
                  ∙ rw (a, b, c, ==_ne _ 0 some1, ==_ne _ 0 some2, reclaims, reclaims)
                      (rw (search_layout-fsd _ k.first.vnode_create.1 k.second.vnode_create.1)
                        (omega (arith, small))))
        ]
      ]
    ]
