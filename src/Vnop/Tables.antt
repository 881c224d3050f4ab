-- ===== src/Vnop/Tables.antt =====
-- Function pointers, and the static arrays of FsdFilter/VNodeHook.cpp with their searches.
use mac_osx_file_system_filt.Base.{ℕ, List, [], ◌∷◌, Option, none, some, if◌then◌else◌}
use mac_osx_file_system_filt.Vnop.Desc.{
  VnodeopDesc, vnop_lookup, vnop_create, vnop_open, vnop_close, vnop_access, vnop_inactive,
  vnop_reclaim, vnop_read, vnop_write, vnop_pagein, vnop_pageout, vnop_strategy, vnop_mmap,
  vnop_rename, vnop_pathconf, vnop_exchange, desc_eq,
}
use mac_osx_file_system_filt.Vnop.VopEnum.{
  FltVopEnum, vop_lookup, vop_create, vop_open, vop_close, vop_access, vop_inactive, vop_reclaim,
  vop_read, vop_write, vop_pagein, vop_pageout, vop_strategy, vop_mmap, vop_rename, vop_pathconf,
  vop_exchange, vop_eq,
}

-- The hooking functions of FsdFilter/VFSHooks.cpp that are entered into operation vectors.
pub data HookFunction : Type 0 where
  fsd_reclaim_hook vnop_read_hook vnop_open_hook vnop_write_hook vnop_pagein_hook vnop_pageout_hook
        vnop_lookup_hook vnop_create_hook vnop_close_hook vnop_inactive_hook vnop_rename_hook
        vnop_exchange_hook :
      HookFunction

-- A value of type VOPFUNC: NULL, the value -1 that marks an operation as deliberately not hooked,
-- a hooking function of the filter, or a function of a file system driver, by its address.
pub data VopFunc : Type 0 where
  null_func : VopFunc
  vop_not_hooked : VopFunc
  hook : HookFunction → VopFunc
  fsd : ℕ → VopFunc

-- struct vnodeopv_entry_desc, whose opve_impl holds a function in one array and an enumerator,
-- cast to a function pointer, in another. The terminating entry is the end of the list.
pub record VnodeopvEntryDesc (A : Type 0) : Type 0 where
  pub opve_op : VnodeopDesc
  pub opve_impl : A

abbrev pub entry : {A : Type 0} → VnodeopDesc → A → VnodeopvEntryDesc A
entry d a = record { opve_op = d; opve_impl = a }

-- gFltVnodeVopHookEntries, which defines the order of hooking.
unfoldable pub vop_hook_entries : List (VnodeopvEntryDesc HookFunction)
vop_hook_entries =
    entry vnop_reclaim fsd_reclaim_hook
    ∷ entry vnop_read vnop_read_hook
    ∷ entry vnop_open vnop_open_hook
    ∷ entry vnop_write vnop_write_hook
    ∷ entry vnop_pagein vnop_pagein_hook
    ∷ entry vnop_pageout vnop_pageout_hook
    ∷ entry vnop_lookup vnop_lookup_hook
    ∷ entry vnop_create vnop_create_hook
    ∷ entry vnop_close vnop_close_hook
    ∷ entry vnop_inactive vnop_inactive_hook
    ∷ entry vnop_rename vnop_rename_hook
    ∷ entry vnop_exchange vnop_exchange_hook
    ∷ []

-- gFltVnodeVopEnumEntries, the mapping from descriptors to indices.
unfoldable pub vop_enum_entries : List (VnodeopvEntryDesc FltVopEnum)
vop_enum_entries =
    entry vnop_lookup vop_lookup
    ∷ entry vnop_create vop_create
    ∷ entry vnop_open vop_open
    ∷ entry vnop_close vop_close
    ∷ entry vnop_access vop_access
    ∷ entry vnop_inactive vop_inactive
    ∷ entry vnop_reclaim vop_reclaim
    ∷ entry vnop_read vop_read
    ∷ entry vnop_write vop_write
    ∷ entry vnop_pagein vop_pagein
    ∷ entry vnop_pageout vop_pageout
    ∷ entry vnop_strategy vop_strategy
    ∷ entry vnop_mmap vop_mmap
    ∷ entry vnop_rename vop_rename
    ∷ entry vnop_pathconf vop_pathconf
    ∷ entry vnop_exchange vop_exchange
    ∷ []

-- FltRetriveVnodeOpvEntryDescByVnodeOpDesc
unfoldable pub retrieve_entry_by_desc :
    {A : Type 0} → List (VnodeopvEntryDesc A) → VnodeopDesc → Option (VnodeopvEntryDesc A)
retrieve_entry_by_desc [] op = none
retrieve_entry_by_desc (e ∷ es) op =
    if desc_eq op e.opve_op then some e else retrieve_entry_by_desc es op

-- FltRetriveVnodeOpvEntryDescByVnodeOp, as it is called: on the array of enumerators.
unfoldable pub retrieve_entry_by_enum :
    List (VnodeopvEntryDesc FltVopEnum) → FltVopEnum → Option (VnodeopvEntryDesc FltVopEnum)
retrieve_entry_by_enum [] indx = none
retrieve_entry_by_enum (e ∷ es) indx =
    if vop_eq indx e.opve_impl then some e else retrieve_entry_by_enum es indx

-- FltVnodeOpvOffsetDesc: the offset in bytes of an operation from the start of a vector.
pub record FltVnodeOpvOffsetDesc : Type 0 where
  pub opve_op : VnodeopDesc
  pub offset : ℕ

-- FltRetriveVnodeOpvOffsetDescByVnodeOpDesc, over the array gFltVnodeOpvOffsetDesc.
unfoldable pub retrieve_offset_desc :
    List FltVnodeOpvOffsetDesc → VnodeopDesc → Option FltVnodeOpvOffsetDesc
retrieve_offset_desc [] op = none
retrieve_offset_desc (e ∷ es) op =
    if desc_eq op e.opve_op then some e else retrieve_offset_desc es op
