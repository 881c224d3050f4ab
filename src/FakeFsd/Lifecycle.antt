-- ===== src/FakeFsd/Lifecycle.antt =====
-- The operations of the fake file system, its registration, and the account of its vnodes.
use mac_osx_file_system_filt.Base.{
  ℕ, ◌+◌, ◌-◌, ◌%◌, ◌^◌, ◌<◌, ◌≡◌, refl, ◌==◌, if◌then◌else◌, arith, Option, none, some, Bool-cases,
  ◌⊎◌, inl, inr, ◌≢◌, ==_ne, true, false, Bool,
}
use mac_osx_file_system_filt.FakeFsd.{Errno, no_error}
use mac_osx_file_system_filt.Hook.Registry.{IoReturn, return_success, return_error}

-- gVnodeCount, an SInt32 as its 32 bits, and gFltFakeFsdHandle.
pub record FakeFsdState : Type 0 where
  pub vnode_count : ℕ
  pub fsd_handle : ℕ

-- What the kernel answers: the result of vfs_fsadd and the handle, the result of vfs_fsremove, and
-- the result of vnode_create and the vnode.
pub record FsdEnv : Type 0 where
  pub vfs_fsadd : Errno × ℕ
  pub vfs_fsremove : ℕ → Errno
  pub vnode_create : Errno × ℕ

abbrev pub is_error : Errno → Bool
is_error no_error = false
is_error _ = true

abbrev pub io_return_of : Errno → IoReturn
io_return_of e = if is_error e then return_error else return_success

-- FltRegisterFakeFsd. vfs_fsadd writes the handle only when it succeeds.
unfoldable pub flt_register_fake_fsd : FsdEnv → FakeFsdState → IoReturn × FakeFsdState
flt_register_fake_fsd k s =
    let (error, handle) = k.vfs_fsadd in
    (io_return_of error, if is_error error then s else record s { fsd_handle = handle })

-- FltUnRegisterFakeFsd
unfoldable pub flt_unregister_fake_fsd : FsdEnv → FakeFsdState → IoReturn × FakeFsdState
flt_unregister_fake_fsd k s =
    if s.fsd_handle == 0
    then (return_success, s)
    else let error = k.vfs_fsremove s.fsd_handle in
      (io_return_of error, if is_error error then s else record s { fsd_handle = 0 })

-- FltFakeFsdCreateVnode: the result, *vNodeHandle if it is written, and the state.
unfoldable pub flt_fake_fsd_create_vnode :
    FsdEnv → FakeFsdState → IoReturn × Option ℕ × FakeFsdState
flt_fake_fsd_create_vnode k s =
    let (error, vnode) = k.vnode_create in
    if is_error error
    then (return_error, none, s)
    else (return_success, some vnode, record s { vnode_count = (s.vnode_count + 1) % 2 ^ 32 })

-- FltFakeFsdReclaim
unfoldable pub flt_fake_fsd_reclaim : FakeFsdState → Errno × FakeFsdState
flt_fake_fsd_reclaim s =
    (no_error, record s { vnode_count = (s.vnode_count + (2 ^ 32 - 1)) % 2 ^ 32 })

-- FltFakeFsdInactive, over vnode_recycle.
unfoldable pub flt_fake_fsd_inactive :
    (ℕ → FakeFsdState → FakeFsdState) → ℕ → FakeFsdState → Errno × FakeFsdState
flt_fake_fsd_inactive vnode_recycle vnode s = (no_error, vnode_recycle vnode s)

-- From a state without a handle, and with a handle that is not null: a successful registration
-- is taken back by the removal, a failed one changes nothing, and what vfs_fsremove refuses
-- stays registered.
flt_unregister-flt_register :
    (k : FsdEnv) (s : FakeFsdState)
    → s.fsd_handle ≡ 0
    → k.vfs_fsadd.1 ≢ 0
    → let (rc, registered) = flt_register_fake_fsd k s in
      let (rc', removed) = flt_unregister_fake_fsd k registered in
      ((rc ≡ return_success) × (rc' ≡ return_success) × (removed ≡ s))
      ⊎ ((rc ≡ return_error) × (registered ≡ s))
      ⊎ ((rc ≡ return_success) × (rc' ≡ return_error) × (removed.fsd_handle ≡ k.vfs_fsadd.1))
unfolding flt_register_fake_fsd flt_unregister_fake_fsd
flt_unregister-flt_register k s idle handle = elim (Bool-cases (is_error k.vfs_fsadd.0)) [
  | inl bad ↦ rw bad (inr (inl (refl, refl)))
  | inr good ↦ elim (Bool-cases (is_error (k.vfs_fsremove k.vfs_fsadd.1))) [
    | inl bad ↦ rw (good, ==_ne _ _ handle, bad) (inr (inr (refl, refl, refl)))
    | inr well ↦ rw (good, ==_ne _ _ handle, well, ← idle) (inl (refl, refl, refl))
  ]
]

-- With a 32-bit count, a vnode that is created and reclaimed leaves the state as it was, and one
-- that could not be created is neither counted nor returned.
flt_fake_fsd_reclaim-create :
    (k : FsdEnv) (s : FakeFsdState)
    → s.vnode_count < 2 ^ 32
    → let (rc, vnode, created) = flt_fake_fsd_create_vnode k s in
      ((rc ≡ return_success)
        × (vnode ≡ some k.vnode_create.1)
        × ((flt_fake_fsd_reclaim created).1 ≡ s))
      ⊎ ((rc ≡ return_error) × (vnode ≡ none) × (created ≡ s))
unfolding flt_fake_fsd_create_vnode flt_fake_fsd_reclaim
flt_fake_fsd_reclaim-create k s small = elim (Bool-cases (is_error k.vnode_create.0)) [
  | inl bad ↦ rw bad (inr (refl, refl, refl))
  | inr good ↦
      let e : ((s.vnode_count + 1) % 2 ^ 32 + (2 ^ 32 - 1)) % 2 ^ 32 ≡ s.vnode_count =
        omega arith in
      rw (good, e) (inl (refl, refl, refl))
]
