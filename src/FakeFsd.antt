-- ===== src/FakeFsd.antt =====
-- The part of FsdFilter/FltFakeFSD.cpp that is built: the fake file system with its operations,
-- which the filter registers to learn the layout of an operation vector, and its two arrays.
pub mod Search
pub mod Lifecycle
pub mod Operations
pub mod Layout
pub mod Recorded
pub mod Hits
pub mod DataSearch
pub mod DataFailure
pub mod FunctionAt
pub mod MountLayout
pub mod Vfs
pub mod VnodeLayout
use mac_osx_file_system_filt.Base.{
  ℕ, ◌+◌, ◌-◌, ◌%◌, ◌^◌, List, [], ◌∷◌, Option, none, some, if◌then◌else◌, ◌==◌, Bool,
}
use mac_osx_file_system_filt.Hook.Registry.{
  IoReturn, return_success, return_error, vop_unknown_offset,
}
use mac_osx_file_system_filt.Vnop.Desc.{
  VnodeopDesc, vnop_default, vnop_lookup, vnop_create, vnop_whiteout, vnop_mknod, vnop_open,
  vnop_close, vnop_access, vnop_inactive, vnop_reclaim, vnop_read, vnop_write, vnop_pagein,
  vnop_pageout, vnop_strategy, vnop_mmap, vnop_rename, vnop_pathconf,
}
use mac_osx_file_system_filt.Vnop.Tables.{
  VnodeopvEntryDesc, entry, FltVnodeOpvOffsetDesc, retrieve_offset_desc,
}

-- errno_t, as far as the fake file system returns it.
pub data Errno : Type 0 where
  no_error enoent enotsup einval : Errno

-- The functions of the array gFltFakeVnodeopEntries.
pub data FakeFsdFunction : Type 0 where
  vn_default_error fake_lookup fake_create fake_whiteout fake_mknod fake_open fake_close fake_access
        fake_inactive fake_reclaim fake_read fake_write fake_pagein fake_pageout fake_strategy
        fake_mmap fake_rename fake_pathconf :
      FakeFsdFunction

-- gFltFakeVnodeopEntries
unfoldable pub fake_vnodeop_entries : List (VnodeopvEntryDesc FakeFsdFunction)
fake_vnodeop_entries =
    entry vnop_default vn_default_error
    ∷ entry vnop_lookup fake_lookup
    ∷ entry vnop_create fake_create
    ∷ entry vnop_whiteout fake_whiteout
    ∷ entry vnop_mknod fake_mknod
    ∷ entry vnop_open fake_open
    ∷ entry vnop_close fake_close
    ∷ entry vnop_access fake_access
    ∷ entry vnop_inactive fake_inactive
    ∷ entry vnop_reclaim fake_reclaim
    ∷ entry vnop_read fake_read
    ∷ entry vnop_write fake_write
    ∷ entry vnop_pagein fake_pagein
    ∷ entry vnop_pageout fake_pageout
    ∷ entry vnop_strategy fake_strategy
    ∷ entry vnop_mmap fake_mmap
    ∷ entry vnop_rename fake_rename
    ∷ entry vnop_pathconf fake_pathconf
    ∷ []

abbrev pub offset_entry : VnodeopDesc → ℕ → FltVnodeOpvOffsetDesc
offset_entry d n = record { opve_op = d; offset = n }

-- gFltVnodeOpvOffsetDesc, with the offset that it holds for each operation.
unfoldable pub vnode_opv_offset_descs : (VnodeopDesc → ℕ) → List FltVnodeOpvOffsetDesc
vnode_opv_offset_descs offset_of =
    offset_entry vnop_lookup (offset_of vnop_lookup)
    ∷ offset_entry vnop_create (offset_of vnop_create)
    ∷ offset_entry vnop_whiteout (offset_of vnop_whiteout)
    ∷ offset_entry vnop_mknod (offset_of vnop_mknod)
    ∷ offset_entry vnop_open (offset_of vnop_open)
    ∷ offset_entry vnop_close (offset_of vnop_close)
    ∷ offset_entry vnop_access (offset_of vnop_access)
    ∷ offset_entry vnop_inactive (offset_of vnop_inactive)
    ∷ offset_entry vnop_reclaim (offset_of vnop_reclaim)
    ∷ offset_entry vnop_read (offset_of vnop_read)
    ∷ offset_entry vnop_write (offset_of vnop_write)
    ∷ offset_entry vnop_pagein (offset_of vnop_pagein)
    ∷ offset_entry vnop_pageout (offset_of vnop_pageout)
    ∷ offset_entry vnop_strategy (offset_of vnop_strategy)
    ∷ offset_entry vnop_mmap (offset_of vnop_mmap)
    ∷ offset_entry vnop_rename (offset_of vnop_rename)
    ∷ offset_entry vnop_pathconf (offset_of vnop_pathconf)
    ∷ []

-- The position of each function; two function pointers are equal when these are.
unfoldable pub fake_number : FakeFsdFunction → ℕ
fake_number vn_default_error = 0
fake_number fake_lookup = 1
fake_number fake_create = 2
fake_number fake_whiteout = 3
fake_number fake_mknod = 4
fake_number fake_open = 5
fake_number fake_close = 6
fake_number fake_access = 7
fake_number fake_inactive = 8
fake_number fake_reclaim = 9
fake_number fake_read = 10
fake_number fake_write = 11
fake_number fake_pagein = 12
fake_number fake_pageout = 13
fake_number fake_strategy = 14
fake_number fake_mmap = 15
fake_number fake_rename = 16
fake_number fake_pathconf = 17

-- FltRetriveVnodeOpvEntryDescByFakeFsdVnodeOp
unfoldable pub retrieve_entry_by_fake_op :
    List (VnodeopvEntryDesc FakeFsdFunction)
    → FakeFsdFunction
    → Option (VnodeopvEntryDesc FakeFsdFunction)
retrieve_entry_by_fake_op [] f = none
retrieve_entry_by_fake_op (e ∷ es) f =
    if fake_number e.opve_impl == fake_number f then some e else retrieve_entry_by_fake_op es f

-- FltRetriveVnodeOpvOffsetDescByFakeFsdVnodeOp, on the array with its offsets.
unfoldable pub retrieve_offset_desc_by_fake_op :
    List FltVnodeOpvOffsetDesc → FakeFsdFunction → Option FltVnodeOpvOffsetDesc
retrieve_offset_desc_by_fake_op offsets f =
    elim (retrieve_entry_by_fake_op fake_vnodeop_entries f) [
      | none ↦ none
      | some d ↦ retrieve_offset_desc offsets d.opve_op
    ]
