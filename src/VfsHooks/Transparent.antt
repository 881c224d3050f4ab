-- ===== src/VfsHooks/Transparent.antt =====
-- What the hooks do in a vector that is hooked, and in one that another thread has just restored.
use mac_osx_file_system_filt.Base.{ℕ, ◌≡◌, refl, All-get_elem?, get_elem?, some}
use mac_osx_file_system_filt.Hook.HashTable.{HashTable}
use mac_osx_file_system_filt.Hook.Located.{Located}
use mac_osx_file_system_filt.Hook.Ops.{flt_get_original_vnode_op, flt_unhook_vnode_vop_and_parent}
use mac_osx_file_system_filt.Hook.Registry.{Env, Registry, release_entry, get_vnode_op_vector}
use mac_osx_file_system_filt.Hook.Vector.{IsHooked, slots}
use mac_osx_file_system_filt.VfsHooks.{
  Call, VnopArgs, run_hook, call_original, flt_vnop_lookup_hook, flt_vnop_create_hook,
  flt_vnop_close_hook, flt_vnop_inactive_hook, flt_vnop_read_hook, flt_vnop_open_hook,
  flt_vnop_pagein_hook, flt_vnop_write_hook, flt_vnop_pageout_hook, flt_vnop_rename_hook,
  flt_vnop_exchange_hook, flt_fsd_reclaim_hook,
}
use mac_osx_file_system_filt.VfsHooks.Index.{IsPlaced, slots-IsPlaced, hook_index}
use mac_osx_file_system_filt.VfsHooks.Original.{
  visited, visited-IsHooked, get_original-hooked, get_original-unhooked,
}
use mac_osx_file_system_filt.Vnop.Tables.{
  VopFunc, hook, HookFunction, fsd_reclaim_hook, vnop_lookup_hook, vnop_create_hook,
  vnop_rename_hook, vnop_exchange_hook,
}
use mac_osx_file_system_filt.Vnop.VopEnum.{FltVopEnum, vop_reclaim}

-- The vnode by which an operation is dispatched: the directory of a lookup or a creation, the
-- source of a renaming or an exchange, else the vnode itself.
abbrev pub vnode_of : HookFunction → VnopArgs → ℕ
vnode_of vnop_lookup_hook args = args.a_dvp
vnode_of vnop_create_hook args = args.a_dvp
vnode_of vnop_rename_hook args = args.a_fvp
vnode_of vnop_exchange_hook args = args.a_fvp
vnode_of _ args = args.a_vp

module _ ⦃g : HashTable⦄ (call : Call) (env : Env) (args : VnopArgs) (r : Registry g.Table) where
  -- The state in which the original function is called.
  abbrev pub calling : HookFunction → ℕ → Registry g.Table → Registry g.Table
  calling fsd_reclaim_hook vnode s = flt_unhook_vnode_vop_and_parent env s vnode
  calling _ vnode s = s

  call_original-calls :
      (vnode : ℕ) (indx : FltVopEnum) (o : VopFunc) (s : Registry g.Table)
      → flt_get_original_vnode_op env r vnode indx ≡ (some o, s)
      → call_original call env args r vnode indx ≡ some (call o args s)
  unfolding call_original
  call_original-calls vnode indx o s e = rw (call_original, e, e)

  reclaim-calls :
      (o : VopFunc) (s : Registry g.Table)
      → flt_get_original_vnode_op env r args.a_vp vop_reclaim ≡ (some o, s)
      → flt_fsd_reclaim_hook call env args r
        ≡ some (call o args (flt_unhook_vnode_vop_and_parent env s args.a_vp))
  unfolding flt_fsd_reclaim_hook
  reclaim-calls o s e = rw (flt_fsd_reclaim_hook, e, e)

  run_hook-calls :
      (f : HookFunction) (o : VopFunc) (s : Registry g.Table)
      → flt_get_original_vnode_op env r (vnode_of f args) (hook_index f) ≡ (some o, s)
      → run_hook call env args r f ≡ some (call o args (calling f (vnode_of f args) s))
  unfolding run_hook flt_vnop_lookup_hook flt_vnop_create_hook flt_vnop_close_hook
      flt_vnop_inactive_hook flt_vnop_read_hook flt_vnop_open_hook flt_vnop_pagein_hook
      flt_vnop_write_hook flt_vnop_pageout_hook flt_vnop_rename_hook flt_vnop_exchange_hook
  run_hook-calls fsd_reclaim_hook o s e = reclaim-calls o s e
  run_hook-calls _ o s e = call_original-calls _ _ o s e

  module _ (v_op i : ℕ) (l : Located) (at : get_elem? (slots env v_op) i ≡ some l)
      (same : get_vnode_op_vector env (vnode_of l.function args) ≡ v_op) where
    index : l.indx ≡ hook_index l.function
    index =
        let p : IsPlaced env v_op l =
          All-get_elem? _ (slots env v_op) i l (slots-IsPlaced env v_op) at in
        p.index

    -- In a vector that is hooked, each slot holds its hook, and the hook, called with arguments
    -- that name a vnode of the vector, calls the function that the slot held before the vector
    -- was hooked, on the same arguments and once, in a state in which the vector is hooked with
    -- the same count; the hook of reclaim first unhooks the vnode and its parent.
    pub run_hook_lem :
        (before : ℕ → VopFunc) (n : ℕ)
        → IsHooked env v_op before n r
        → (s : Registry g.Table) × (r.words l.address ≡ hook l.function)
          × (run_hook call env args r l.function
              ≡ some
                  (call (before l.address) args (calling l.function (vnode_of l.function args) s)))
          × IsHooked env v_op before n s
          × (s.words ≡ r.words)
          × (s.table ≡ r.table)
    unfolding release_entry
    run_hook_lem before n h = (
      visited env v_op (vnode_of l.function args) same r,
      All-get_elem? _ (slots env v_op) i l h.hooks at,
      run_hook-calls l.function _ _ (
          rw (← index)
            (All-get_elem? _ (slots env v_op) i l (get_original-hooked env v_op _ same r h) at)),
      visited-IsHooked env v_op _ same r h,
      refl,
      refl,
    )

    -- A hook that runs when the vector is not in the table, since it was entered before another
    -- thread removed it, calls the function that the slot holds by then.
    pub run_hook-unhooked :
        g.ght_get r.table v_op ≡ 0
        → run_hook call env args r l.function
          ≡ some (call (r.words l.address) args (calling l.function (vnode_of l.function args) r))
    run_hook-unhooked missing = run_hook-calls l.function _ _ (
        rw (← index) (
          All-get_elem? _ (slots env v_op) i l (get_original-unhooked env v_op _ same r missing)
            at))
