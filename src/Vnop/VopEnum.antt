-- ===== src/Vnop/VopEnum.antt =====
-- The enumeration FltVopEnum of FsdFilter/VNodeHook.h: the index of each vnode operation in the
-- array of original functions that a hook entry keeps.
use mac_osx_file_system_filt.Base.{
  ℕ, ◌≡◌, refl, List, [], ◌∷◌, Bool, true, ap, ◌∙◌, sym, ◌==◌, ==_refl, eq_of_==, get_or,
}

pub data FltVopEnum : Type 0 where
  vop_unknown vop_access vop_advlock vop_allocate vop_blktooff vop_blockmap vop_bwrite vop_close
        vop_copyfile vop_create vop_default vop_exchange vop_fsync vop_getattr vop_getxattr
        vop_inactive vop_ioctl vop_link vop_listxattr vop_lookup vop_kqfilt_add vop_kqfilt_remove
        vop_mkdir vop_mknod vop_mmap vop_mnomap vop_offtoblock vop_open vop_pagein vop_pageout
        vop_pathconf vop_read vop_readdir vop_readdirattr vop_readlink vop_reclaim vop_remove
        vop_removexattr vop_rename vop_revoke vop_rmdir vop_searchfs vop_select vop_setattr
        vop_setxattr vop_strategy vop_symlink vop_whiteout vop_write vop_getnamedstream_hook
        vop_makenamedstream_hook vop_removenamedstream_hook vop_max :
      FltVopEnum

-- The value of each enumerator.
unfoldable pub vop_index : FltVopEnum → ℕ
vop_index vop_unknown = 0
vop_index vop_access = 1
vop_index vop_advlock = 2
vop_index vop_allocate = 3
vop_index vop_blktooff = 4
vop_index vop_blockmap = 5
vop_index vop_bwrite = 6
vop_index vop_close = 7
vop_index vop_copyfile = 8
vop_index vop_create = 9
vop_index vop_default = 10
vop_index vop_exchange = 11
vop_index vop_fsync = 12
vop_index vop_getattr = 13
vop_index vop_getxattr = 14
vop_index vop_inactive = 15
vop_index vop_ioctl = 16
vop_index vop_link = 17
vop_index vop_listxattr = 18
vop_index vop_lookup = 19
vop_index vop_kqfilt_add = 20
vop_index vop_kqfilt_remove = 21
vop_index vop_mkdir = 22
vop_index vop_mknod = 23
vop_index vop_mmap = 24
vop_index vop_mnomap = 25
vop_index vop_offtoblock = 26
vop_index vop_open = 27
vop_index vop_pagein = 28
vop_index vop_pageout = 29
vop_index vop_pathconf = 30
vop_index vop_read = 31
vop_index vop_readdir = 32
vop_index vop_readdirattr = 33
vop_index vop_readlink = 34
vop_index vop_reclaim = 35
vop_index vop_remove = 36
vop_index vop_removexattr = 37
vop_index vop_rename = 38
vop_index vop_revoke = 39
vop_index vop_rmdir = 40
vop_index vop_searchfs = 41
vop_index vop_select = 42
vop_index vop_setattr = 43
vop_index vop_setxattr = 44
vop_index vop_strategy = 45
vop_index vop_symlink = 46
vop_index vop_whiteout = 47
vop_index vop_write = 48
vop_index vop_getnamedstream_hook = 49
vop_index vop_makenamedstream_hook = 50
vop_index vop_removenamedstream_hook = 51
vop_index vop_max = 52

all_enumerators : List FltVopEnum
all_enumerators =
    vop_unknown ∷ vop_access ∷ vop_advlock ∷ vop_allocate ∷ vop_blktooff ∷ vop_blockmap ∷ vop_bwrite
    ∷ vop_close ∷ vop_copyfile ∷ vop_create ∷ vop_default ∷ vop_exchange ∷ vop_fsync ∷ vop_getattr
    ∷ vop_getxattr ∷ vop_inactive ∷ vop_ioctl ∷ vop_link ∷ vop_listxattr ∷ vop_lookup
    ∷ vop_kqfilt_add ∷ vop_kqfilt_remove ∷ vop_mkdir ∷ vop_mknod ∷ vop_mmap ∷ vop_mnomap
    ∷ vop_offtoblock ∷ vop_open ∷ vop_pagein ∷ vop_pageout ∷ vop_pathconf ∷ vop_read ∷ vop_readdir
    ∷ vop_readdirattr ∷ vop_readlink ∷ vop_reclaim ∷ vop_remove ∷ vop_removexattr ∷ vop_rename
    ∷ vop_revoke ∷ vop_rmdir ∷ vop_searchfs ∷ vop_select ∷ vop_setattr ∷ vop_setxattr ∷ vop_strategy
    ∷ vop_symlink ∷ vop_whiteout ∷ vop_write ∷ vop_getnamedstream_hook ∷ vop_makenamedstream_hook
    ∷ vop_removenamedstream_hook ∷ vop_max ∷ []

-- The comparison of two values of the enumeration.
unfoldable pub vop_eq : FltVopEnum → FltVopEnum → Bool
vop_eq a b = vop_index a == vop_index b

enumerator_at : (i : FltVopEnum) → get_or all_enumerators (vop_index i) vop_unknown ≡ i
unfolding vop_index all_enumerators
enumerator_at vop_unknown = refl
enumerator_at _ = refl

pub vop_index-injective : (a b : FltVopEnum) → vop_index a ≡ vop_index b → a ≡ b
vop_index-injective a b h =
    sym (enumerator_at a) ∙ ap (λ n. get_or all_enumerators n vop_unknown) h ∙ enumerator_at b

pub vop_eq_refl : (a : FltVopEnum) → vop_eq a a ≡ true
unfolding vop_eq
vop_eq_refl a = ==_refl (vop_index a)

pub eq_of_vop_eq : (a b : FltVopEnum) → vop_eq a b ≡ true → a ≡ b
unfolding vop_eq
eq_of_vop_eq a b h = vop_index-injective a b (eq_of_== _ _ h)
