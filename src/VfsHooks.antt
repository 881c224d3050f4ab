-- ===== src/VfsHooks.antt =====
-- FsdFilter/VFSHooks.cpp: the functions that stand in a hooked operation vector. Each asks
-- FltGetOriginalVnodeOp for the function it replaced, by the vnode that its arguments name and its
-- own index, and calls it on the same arguments.
pub mod Index
pub mod Original
pub mod Transparent
pub mod Always
use mac_osx_file_system_filt.Base.{ℕ, Option, none, some}
use mac_osx_file_system_filt.Hook.HashTable.{HashTable}
use mac_osx_file_system_filt.Hook.Ops.{flt_get_original_vnode_op, flt_unhook_vnode_vop_and_parent}
use mac_osx_file_system_filt.Hook.Registry.{Env, Registry}
use mac_osx_file_system_filt.Vnop.Tables.{
  VopFunc, HookFunction, fsd_reclaim_hook, vnop_read_hook, vnop_open_hook, vnop_write_hook,
  vnop_pagein_hook, vnop_pageout_hook, vnop_lookup_hook, vnop_create_hook, vnop_close_hook,
  vnop_inactive_hook, vnop_rename_hook, vnop_exchange_hook,
}
use mac_osx_file_system_filt.Vnop.VopEnum.{
  FltVopEnum, vop_lookup, vop_create, vop_open, vop_close, vop_inactive, vop_reclaim, vop_read,
  vop_write, vop_pagein, vop_pageout, vop_rename, vop_exchange,
}

-- The members of struct vnop_*_args that select a vnode, and the address of the structure, which
-- is all that the original function is given.
pub record VnopArgs : Type 0 where
  pub ap : ℕ
  pub a_vp : ℕ
  pub a_dvp : ℕ
  pub a_fvp : ℕ

-- A call through a function pointer: its result, and what it did to the filter's state.
abbrev pub Call : ⦃g : HashTable⦄ → Type 0
Call ⦃g⦄ = VopFunc → VnopArgs → Registry g.Table → ℕ × Registry g.Table

module _ ⦃g : HashTable⦄ (call : Call) (env : Env) (args : VnopArgs) (r : Registry g.Table) where
  -- The common body of the hooks but one; `none` stands for a function that was not found.
  unfoldable pub call_original : ℕ → FltVopEnum → Option (ℕ × Registry g.Table)
  call_original vnode indx =
      let (orig_vnop, r') = flt_get_original_vnode_op env r vnode indx in
      elim orig_vnop [ none ↦ none | some f ↦ some (call f args r') ]

  unfoldable pub flt_vnop_lookup_hook : Option (ℕ × Registry g.Table)
  flt_vnop_lookup_hook = call_original args.a_dvp vop_lookup

  unfoldable pub flt_vnop_create_hook : Option (ℕ × Registry g.Table)
  flt_vnop_create_hook = call_original args.a_dvp vop_create

  unfoldable pub flt_vnop_close_hook : Option (ℕ × Registry g.Table)
  flt_vnop_close_hook = call_original args.a_vp vop_close

  unfoldable pub flt_vnop_inactive_hook : Option (ℕ × Registry g.Table)
  flt_vnop_inactive_hook = call_original args.a_vp vop_inactive

  unfoldable pub flt_vnop_read_hook : Option (ℕ × Registry g.Table)
  flt_vnop_read_hook = call_original args.a_vp vop_read

  unfoldable pub flt_vnop_open_hook : Option (ℕ × Registry g.Table)
  flt_vnop_open_hook = call_original args.a_vp vop_open

  unfoldable pub flt_vnop_pagein_hook : Option (ℕ × Registry g.Table)
  flt_vnop_pagein_hook = call_original args.a_vp vop_pagein

  unfoldable pub flt_vnop_write_hook : Option (ℕ × Registry g.Table)
  flt_vnop_write_hook = call_original args.a_vp vop_write

  unfoldable pub flt_vnop_pageout_hook : Option (ℕ × Registry g.Table)
  flt_vnop_pageout_hook = call_original args.a_vp vop_pageout

  unfoldable pub flt_vnop_rename_hook : Option (ℕ × Registry g.Table)
  flt_vnop_rename_hook = call_original args.a_fvp vop_rename

  unfoldable pub flt_vnop_exchange_hook : Option (ℕ × Registry g.Table)
  flt_vnop_exchange_hook = call_original args.a_fvp vop_exchange

  -- The original function is fetched before the vnode is unhooked, and called after it.
  unfoldable pub flt_fsd_reclaim_hook : Option (ℕ × Registry g.Table)
  flt_fsd_reclaim_hook =
      let (orig_vnop, r') = flt_get_original_vnode_op env r args.a_vp vop_reclaim in
      let r'' = flt_unhook_vnode_vop_and_parent env r' args.a_vp in
      elim orig_vnop [ none ↦ none | some f ↦ some (call f args r'') ]

  -- The function that a hooked slot holds.
  unfoldable pub run_hook : HookFunction → Option (ℕ × Registry g.Table)
  run_hook fsd_reclaim_hook = flt_fsd_reclaim_hook
  run_hook vnop_read_hook = flt_vnop_read_hook
  run_hook vnop_open_hook = flt_vnop_open_hook
  run_hook vnop_write_hook = flt_vnop_write_hook
  run_hook vnop_pagein_hook = flt_vnop_pagein_hook
  run_hook vnop_pageout_hook = flt_vnop_pageout_hook
  run_hook vnop_lookup_hook = flt_vnop_lookup_hook
  run_hook vnop_create_hook = flt_vnop_create_hook
  run_hook vnop_close_hook = flt_vnop_close_hook
  run_hook vnop_inactive_hook = flt_vnop_inactive_hook
  run_hook vnop_rename_hook = flt_vnop_rename_hook
  run_hook vnop_exchange_hook = flt_vnop_exchange_hook
