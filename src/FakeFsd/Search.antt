-- ===== src/FakeFsd/Search.antt =====
-- The two arrays of the fake file system, and the operations that the filter can hook with them.
use mac_osx_file_system_filt.Base.{ℕ, ◌≡◌, ◌⊎◌, inl, inr, refl, List, [], ◌∷◌, none, some}
use mac_osx_file_system_filt.FakeFsd.{
  FakeFsdFunction, vn_default_error, fake_lookup, fake_create, fake_whiteout, fake_mknod, fake_open,
  fake_close, fake_access, fake_inactive, fake_reclaim, fake_read, fake_write, fake_pagein,
  fake_pageout, fake_strategy, fake_mmap, fake_rename, fake_pathconf, fake_vnodeop_entries,
  vnode_opv_offset_descs, fake_number, retrieve_entry_by_fake_op, retrieve_offset_desc_by_fake_op,
  offset_entry,
}
use mac_osx_file_system_filt.Hook.Located.{Located, located}
use mac_osx_file_system_filt.Hook.Loop.{locate}
use mac_osx_file_system_filt.Hook.Registry.{Env}
use mac_osx_file_system_filt.Hook.Vector.{slots}
use mac_osx_file_system_filt.Vnop.Desc.{
  VnodeopDesc, vnop_default, vnop_lookup, vnop_create, vnop_whiteout, vnop_mknod, vnop_open,
  vnop_close, vnop_access, vnop_inactive, vnop_reclaim, vnop_read, vnop_write, vnop_pagein,
  vnop_pageout, vnop_strategy, vnop_mmap, vnop_rename, vnop_pathconf, desc_eq, desc_number,
}
use mac_osx_file_system_filt.Vnop.Tables.{
  HookFunction, fsd_reclaim_hook, vnop_read_hook, vnop_open_hook, vnop_write_hook, vnop_pagein_hook,
  vnop_pageout_hook, vnop_lookup_hook, vnop_create_hook, vnop_close_hook, vnop_inactive_hook,
  vnop_rename_hook, retrieve_offset_desc, retrieve_entry_by_desc, vop_enum_entries,
  vop_hook_entries,
}

-- The operation that each function of the fake file system implements.
abbrev pub op_of : FakeFsdFunction → VnodeopDesc
op_of vn_default_error = vnop_default
op_of fake_lookup = vnop_lookup
op_of fake_create = vnop_create
op_of fake_whiteout = vnop_whiteout
op_of fake_mknod = vnop_mknod
op_of fake_open = vnop_open
op_of fake_close = vnop_close
op_of fake_access = vnop_access
op_of fake_inactive = vnop_inactive
op_of fake_reclaim = vnop_reclaim
op_of fake_read = vnop_read
op_of fake_write = vnop_write
op_of fake_pagein = vnop_pagein
op_of fake_pageout = vnop_pageout
op_of fake_strategy = vnop_strategy
op_of fake_mmap = vnop_mmap
op_of fake_rename = vnop_rename
op_of fake_pathconf = vnop_pathconf

-- Whatever offsets the array holds, each function of the fake file system leads to the offset of
-- its own operation, and only the default function, which has no slot of its own, to none.
retrieve_offset_desc_by_fake_op_lem :
    (offset_of : VnodeopDesc → ℕ) (f : FakeFsdFunction)
    → ((f ≡ vn_default_error)
        × (retrieve_offset_desc_by_fake_op (vnode_opv_offset_descs offset_of) f ≡ none))
      ⊎ (retrieve_offset_desc_by_fake_op (vnode_opv_offset_descs offset_of) f
          ≡ some (offset_entry (op_of f) (offset_of (op_of f))))
unfolding retrieve_offset_desc_by_fake_op retrieve_entry_by_fake_op fake_vnodeop_entries fake_number
    vnode_opv_offset_descs retrieve_offset_desc desc_eq desc_number
retrieve_offset_desc_by_fake_op_lem offset_of vn_default_error = inl (refl, refl)
retrieve_offset_desc_by_fake_op_lem offset_of _ = inr refl

abbrev pub hooks_of : List Located → List HookFunction
hooks_of [] = []
hooks_of (l ∷ ls) = l.function ∷ hooks_of ls

-- With the array as it is built, whatever offsets have been found, the hooks that have a slot are
-- these eleven, in the order of hooking: all of gFltVnodeVopHookEntries but the one of exchange.
pub slots-hooks :
    (env : Env) (v_op : ℕ) (offset_of : VnodeopDesc → ℕ)
    → env.offset_descs ≡ vnode_opv_offset_descs offset_of
    → hooks_of (slots env v_op)
      ≡ fsd_reclaim_hook ∷ vnop_read_hook ∷ vnop_open_hook ∷ vnop_write_hook ∷ vnop_pagein_hook
        ∷ vnop_pageout_hook ∷ vnop_lookup_hook ∷ vnop_create_hook ∷ vnop_close_hook
        ∷ vnop_inactive_hook ∷ vnop_rename_hook ∷ []
unfolding vnode_opv_offset_descs retrieve_offset_desc desc_eq desc_number locate located
    retrieve_entry_by_desc vop_enum_entries vop_hook_entries
slots-hooks env v_op offset_of e = rw (locate, e) refl
