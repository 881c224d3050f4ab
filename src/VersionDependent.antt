-- ===== src/VersionDependent.antt =====
-- FsdFilter/VersionDependent.cpp: the layout of one version of the kernel, that is used instead of
-- what the fake file system finds when USE_FAKE_FSD is not defined.
use mac_osx_file_system_filt.Base.{
  ℕ, ◌+◌, ◌*◌, ◌/◌, ◌%◌, ◌^◌, ◌≡◌, refl, ap, List, [], ◌∷◌, none, some, Bool, true, false,
  if◌then◌else◌, ◌==◌, arith, All,
}
use mac_osx_file_system_filt.FakeFsd.{offset_entry}
use mac_osx_file_system_filt.FakeFsd.Search.{hooks_of}
use mac_osx_file_system_filt.Hook.Located.{Located, located}
use mac_osx_file_system_filt.Hook.Loop.{locate, slot}
use mac_osx_file_system_filt.Hook.Registry.{Env, IoReturn, return_success}
use mac_osx_file_system_filt.Hook.Vector.{slots}
use mac_osx_file_system_filt.Vnop.Desc.{
  VnodeopDesc, vnop_lookup, vnop_create, vnop_open, vnop_close, vnop_inactive, vnop_reclaim,
  vnop_read, vnop_write, vnop_pagein, vnop_pageout, vnop_mmap, vnop_rename, vnop_exchange, desc_eq,
  desc_number,
}
use mac_osx_file_system_filt.Vnop.Tables.{
  VopFunc, null_func, FltVnodeOpvOffsetDesc, retrieve_offset_desc, HookFunction, vop_hook_entries,
  vop_enum_entries, retrieve_entry_by_desc, VnodeopvEntryDesc,
}

-- struct vnode_Yosemite, the members that are read.
pub record VnodeYosemite : Type 0 where
  pub v_op : ℕ
  pub v_name : ℕ

-- struct mount_header_Yosemite and struct vfstable_header_Yosemite, the members that are read.
pub record MountHeaderYosemite : Type 0 where
  pub mnt_vtable : ℕ

pub record VfstableHeaderYosemite : Type 0 where
  pub vfc_vfsflags : ℕ

-- struct vnode_attr, the members that are set, and which are wanted or active.
pub record VnodeAttr : Type 0 where
  pub va_data_size : ℕ
  pub va_vaflags : ℕ
  pub wants_data_size : Bool
  pub sets_data_size : Bool

-- VATTR_INIT
abbrev vattr_init : VnodeAttr
vattr_init = record {
  va_data_size = 0;
  va_vaflags = 0;
  wants_data_size = false;
  sets_data_size = false;
}

-- FltVnodeGetSize, with vnode_getattr as an argument: the error, 0 for none, and *sizep.
unfoldable pub flt_vnode_get_size : (ℕ → VnodeAttr → ℕ × VnodeAttr) → ℕ → ℕ → ℕ × ℕ
flt_vnode_get_size vnode_getattr vp sizep =
    let (error, va) = vnode_getattr vp (record vattr_init { wants_data_size = true }) in
    (error, if error == 0 then va.va_data_size else sizep)

-- FltVnodeSetsize, with vnode_setattr as an argument, on a state of the kernel; & 0xffff keeps the
-- sixteen low bits.
unfoldable pub flt_vnode_setsize :
    {S : Type 0} → (ℕ → VnodeAttr → S → ℕ × S) → ℕ → ℕ → ℕ → S → ℕ × S
flt_vnode_setsize vnode_setattr vp size ioflag s =
    let va = record vattr_init { va_data_size = size; sets_data_size = true } in
    vnode_setattr vp (record va { va_vaflags = ioflag % 2 ^ 16 }) s

-- The memory of the kernel: its structures by address, the words of the operation vectors, and the
-- member vdesc_offset of each descriptor; and vnode_mount.
pub record YosemiteKernel : Type 0 where
  pub vnode_at : ℕ → VnodeYosemite
  pub mount_at : ℕ → MountHeaderYosemite
  pub vfstable_at : ℕ → VfstableHeaderYosemite
  pub vdesc_offset : VnodeopDesc → ℕ
  pub vnode_mount : ℕ → ℕ

-- VNOP_OFFSET
abbrev pub vnop_offset : YosemiteKernel → VnodeopDesc → ℕ
vnop_offset k op = (8 * k.vdesc_offset op) % 2 ^ 64

-- gFltVnodeOpvOffsetDesc
unfoldable pub yosemite_offset_descs : YosemiteKernel → List FltVnodeOpvOffsetDesc
yosemite_offset_descs k =
    offset_entry vnop_lookup (vnop_offset k vnop_lookup)
    ∷ offset_entry vnop_create (vnop_offset k vnop_create)
    ∷ offset_entry vnop_open (vnop_offset k vnop_open)
    ∷ offset_entry vnop_close (vnop_offset k vnop_close)
    ∷ offset_entry vnop_inactive (vnop_offset k vnop_inactive)
    ∷ offset_entry vnop_reclaim (vnop_offset k vnop_reclaim)
    ∷ offset_entry vnop_read (vnop_offset k vnop_read)
    ∷ offset_entry vnop_write (vnop_offset k vnop_write)
    ∷ offset_entry vnop_pagein (vnop_offset k vnop_pagein)
    ∷ offset_entry vnop_pageout (vnop_offset k vnop_pageout)
    ∷ offset_entry vnop_mmap (vnop_offset k vnop_mmap)
    ∷ offset_entry vnop_rename (vnop_offset k vnop_rename)
    ∷ offset_entry vnop_exchange (vnop_offset k vnop_exchange)
    ∷ []

-- FltGetVnodeOpVector
abbrev pub yosemite_op_vector : YosemiteKernel → ℕ → ℕ
yosemite_op_vector k vn = (k.vnode_at vn).v_op

-- FltGetVnop, over the words of the operation vectors.
unfoldable pub flt_get_vnop : YosemiteKernel → (ℕ → VopFunc) → ℕ → VnodeopDesc → VopFunc
flt_get_vnop k words vn opve_op = elim (retrieve_offset_desc (yosemite_offset_descs k) opve_op) [
  | none ↦ null_func
  | some desc ↦ words ((yosemite_op_vector k vn + desc.offset / 8 * 8) % 2 ^ 64)
]

-- GetVnodeNamePtr
unfoldable pub get_vnode_name_ptr : YosemiteKernel → ℕ → ℕ
get_vnode_name_ptr k vn = (k.vnode_at vn).v_name

-- FltGetVnodeVfsFlags
unfoldable pub flt_get_vnode_vfs_flags : YosemiteKernel → ℕ → ℕ
flt_get_vnode_vfs_flags k vnode =
    (k.vfstable_at (k.mount_at (k.vnode_mount vnode)).mnt_vtable).vfc_vfsflags

-- FltGetVnodeLayout
unfoldable pub yosemite_vnode_layout : IoReturn
yosemite_vnode_layout = return_success

abbrev pub addresses_of : List Located → List ℕ
addresses_of [] = []
addresses_of (l ∷ ls) = l.address ∷ addresses_of ls

abbrev pub functions_of : List (VnodeopvEntryDesc HookFunction) → List HookFunction
functions_of [] = []
functions_of (d ∷ ds) = d.opve_impl ∷ functions_of ds

-- The words whose positions are the members vdesc_offset of the descriptors.
abbrev pub slots_of : YosemiteKernel → ℕ → List (VnodeopvEntryDesc HookFunction) → List ℕ
slots_of k v_op [] = []
slots_of k v_op (d ∷ ds) = slot v_op (vnop_offset k d.opve_op) ∷ slots_of k v_op ds

aligned : (x : ℕ) → (8 * x) % 2 ^ 64 / 8 * 8 ≡ (8 * x) % 2 ^ 64
aligned x = omega arith

-- FltGetVnop returns the words of the slots.
abbrev pub Gets :
    YosemiteKernel → (ℕ → VopFunc) → ℕ → List (VnodeopvEntryDesc HookFunction) → Type 0
Gets k words vn ds =
    All
      (λ d.
        flt_get_vnop k words vn d.opve_op
        ≡ words (slot (yosemite_op_vector k vn) (vnop_offset k d.opve_op)))
      ds

flt_get_vnop-slot :
    (k : YosemiteKernel) (words : ℕ → VopFunc) (vn : ℕ) (op : VnodeopDesc)
    → retrieve_offset_desc (yosemite_offset_descs k) op ≡ some (offset_entry op (vnop_offset k op))
    → flt_get_vnop k words vn op ≡ words (slot (yosemite_op_vector k vn) (vnop_offset k op))
unfolding flt_get_vnop
flt_get_vnop-slot k words vn op e =
    rw (flt_get_vnop, e)
      (ap (λ n. words ((yosemite_op_vector k vn + n) % 2 ^ 64)) (aligned (k.vdesc_offset op)))

hooks-Gets : (k : YosemiteKernel) (words : ℕ → VopFunc) (vn : ℕ) → Gets k words vn vop_hook_entries
unfolding yosemite_offset_descs retrieve_offset_desc desc_eq desc_number vop_hook_entries
hooks-Gets k words vn =
    let at = flt_get_vnop-slot k words vn in
    (
      at vnop_reclaim refl,
      (
        at vnop_read refl,
        (
          at vnop_open refl,
          (
            at vnop_write refl,
            (
              at vnop_pagein refl,
              (
                at vnop_pageout refl,
                (
                  at vnop_lookup refl,
                  (
                    at vnop_create refl,
                    (
                      at vnop_close refl,
                      (at vnop_inactive refl, (at vnop_rename refl, (at vnop_exchange refl, tt))),
                    ),
                  ),
                ),
              ),
            ),
          ),
        ),
      ),
    )

-- With the array of VersionDependent.cpp, whatever the kernel's descriptors hold, every hook of
-- gFltVnodeVopHookEntries, the one of exchange included, has a slot: the word of the vnode's vector
-- whose position is the vdesc_offset of its descriptor. FltGetVnop returns that word.
pub slots-yosemite :
    (k : YosemiteKernel) (env : Env) (words : ℕ → VopFunc) (vn : ℕ)
    → env.offset_descs ≡ yosemite_offset_descs k
    → let v_op = yosemite_op_vector k vn in
      (hooks_of (slots env v_op) ≡ functions_of vop_hook_entries)
      × (addresses_of (slots env v_op) ≡ slots_of k v_op vop_hook_entries)
      × Gets k words vn vop_hook_entries
unfolding yosemite_offset_descs retrieve_offset_desc desc_eq desc_number locate located
    retrieve_entry_by_desc vop_enum_entries vop_hook_entries
slots-yosemite k env words vn e = rw (locate, e) (refl, refl, hooks-Gets k words vn)
