-- ===== src/FakeFsd/Operations.antt =====
-- The vnode operations of the fake file system, which refuse what they are asked.
use mac_osx_file_system_filt.Base.{arith, ℕ, ◌≡◌, ◌≢◌, ◌↔◌, refl}
use mac_osx_file_system_filt.FakeFsd.{
  Errno, no_error, enoent, enotsup, FakeFsdFunction, vn_default_error, fake_lookup, fake_create,
  fake_whiteout, fake_mknod, fake_open, fake_close, fake_access, fake_inactive, fake_reclaim,
  fake_read, fake_write, fake_pagein, fake_pageout, fake_strategy, fake_mmap, fake_rename,
  fake_pathconf,
}
use mac_osx_file_system_filt.FakeFsd.Lifecycle.{
  FakeFsdState, flt_fake_fsd_reclaim, flt_fake_fsd_inactive,
}

unfoldable pub flt_fake_fsd_lookup : FakeFsdState → Errno × FakeFsdState
flt_fake_fsd_lookup s = (enoent, s)

unfoldable pub flt_fake_fsd_create : FakeFsdState → Errno × FakeFsdState
flt_fake_fsd_create s = (enotsup, s)

unfoldable pub flt_fake_fsd_whiteout : FakeFsdState → Errno × FakeFsdState
flt_fake_fsd_whiteout s = (enotsup, s)

unfoldable pub flt_fake_fsd_mknod : FakeFsdState → Errno × FakeFsdState
flt_fake_fsd_mknod s = (enotsup, s)

unfoldable pub flt_fake_fsd_open : FakeFsdState → Errno × FakeFsdState
flt_fake_fsd_open s = (enotsup, s)

unfoldable pub flt_fake_fsd_close : FakeFsdState → Errno × FakeFsdState
flt_fake_fsd_close s = (no_error, s)

unfoldable pub flt_fake_fsd_access : FakeFsdState → Errno × FakeFsdState
flt_fake_fsd_access s = (enotsup, s)

unfoldable pub flt_fake_fsd_read : FakeFsdState → Errno × FakeFsdState
flt_fake_fsd_read s = (enotsup, s)

unfoldable pub flt_fake_fsd_write : FakeFsdState → Errno × FakeFsdState
flt_fake_fsd_write s = (enotsup, s)

unfoldable pub flt_fake_fsd_pagein : FakeFsdState → Errno × FakeFsdState
flt_fake_fsd_pagein s = (enotsup, s)

unfoldable pub flt_fake_fsd_pageout : FakeFsdState → Errno × FakeFsdState
flt_fake_fsd_pageout s = (enotsup, s)

unfoldable pub flt_fake_fsd_strategy : FakeFsdState → Errno × FakeFsdState
flt_fake_fsd_strategy s = (enotsup, s)

unfoldable pub flt_fake_fsd_mmap : FakeFsdState → Errno × FakeFsdState
flt_fake_fsd_mmap s = (enotsup, s)

unfoldable pub flt_fake_fsd_rename : FakeFsdState → Errno × FakeFsdState
flt_fake_fsd_rename s = (enotsup, s)

unfoldable pub flt_fake_fsd_pathconf : FakeFsdState → Errno × FakeFsdState
flt_fake_fsd_pathconf s = (enotsup, s)

-- The function of the array that the kernel calls for a vnode; vn_default_error is the kernel's.
unfoldable pub run_fake :
    (FakeFsdState → Errno × FakeFsdState)
    → (ℕ → FakeFsdState → FakeFsdState)
    → FakeFsdFunction
    → ℕ
    → FakeFsdState
    → Errno × FakeFsdState
run_fake default vnode_recycle vn_default_error vnode s = default s
run_fake default vnode_recycle fake_lookup vnode s = flt_fake_fsd_lookup s
run_fake default vnode_recycle fake_create vnode s = flt_fake_fsd_create s
run_fake default vnode_recycle fake_whiteout vnode s = flt_fake_fsd_whiteout s
run_fake default vnode_recycle fake_mknod vnode s = flt_fake_fsd_mknod s
run_fake default vnode_recycle fake_open vnode s = flt_fake_fsd_open s
run_fake default vnode_recycle fake_close vnode s = flt_fake_fsd_close s
run_fake default vnode_recycle fake_access vnode s = flt_fake_fsd_access s
run_fake default vnode_recycle fake_inactive vnode s = flt_fake_fsd_inactive vnode_recycle vnode s
run_fake default vnode_recycle fake_reclaim vnode s = flt_fake_fsd_reclaim s
run_fake default vnode_recycle fake_read vnode s = flt_fake_fsd_read s
run_fake default vnode_recycle fake_write vnode s = flt_fake_fsd_write s
run_fake default vnode_recycle fake_pagein vnode s = flt_fake_fsd_pagein s
run_fake default vnode_recycle fake_pageout vnode s = flt_fake_fsd_pageout s
run_fake default vnode_recycle fake_strategy vnode s = flt_fake_fsd_strategy s
run_fake default vnode_recycle fake_mmap vnode s = flt_fake_fsd_mmap s
run_fake default vnode_recycle fake_rename vnode s = flt_fake_fsd_rename s
run_fake default vnode_recycle fake_pathconf vnode s = flt_fake_fsd_pathconf s

-- No function but the default, inactive and reclaim changes the state of the fake file system, and
-- none of these but close reports success.
pub run_fake-refuses :
    (default : FakeFsdState → Errno × FakeFsdState)
    (vnode_recycle : ℕ → FakeFsdState → FakeFsdState) (f : FakeFsdFunction) (vnode : ℕ)
    (s : FakeFsdState)
    → f ≢ vn_default_error
    → f ≢ fake_inactive
    → f ≢ fake_reclaim
    → let (error, s') = run_fake default vnode_recycle f vnode s in
      (s' ≡ s) × ((error ≡ no_error) ↔ (f ≡ fake_close))
unfolding run_fake flt_fake_fsd_lookup flt_fake_fsd_create flt_fake_fsd_whiteout flt_fake_fsd_mknod
    flt_fake_fsd_open flt_fake_fsd_close flt_fake_fsd_access flt_fake_fsd_read flt_fake_fsd_write
    flt_fake_fsd_pagein flt_fake_fsd_pageout flt_fake_fsd_strategy flt_fake_fsd_mmap
    flt_fake_fsd_rename flt_fake_fsd_pathconf
run_fake-refuses default vnode_recycle vn_default_error vnode s d i r = absurd (d refl)
run_fake-refuses default vnode_recycle fake_inactive vnode s d i r = absurd (i refl)
run_fake-refuses default vnode_recycle fake_reclaim vnode s d i r = absurd (r refl)
run_fake-refuses default vnode_recycle fake_close vnode s d i r = (refl, (λ _. refl, λ _. refl))
run_fake-refuses default vnode_recycle _ vnode s d i r =
    (refl, (λ e. ground arith, λ e. ground arith))
