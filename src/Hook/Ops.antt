-- ===== src/Hook/Ops.antt =====
-- FltHookVnodeVop, FltUnHookVnodeVop, FltGetOriginalVnodeOp and the functions that apply them to a
-- vnode and its parent. Each part that runs under one hold of the lock, or without it, is a
-- function of its own, so that an interleaving of several threads is a sequence of these parts.
use mac_osx_file_system_filt.Base.{
  ℕ, Bool, true, false, ◌∷◌, Option, none, some, if◌then◌else◌, ◌==◌, update, ◌&&◌, not,
}
use mac_osx_file_system_filt.Hook.Entry.{
  FltVnodeHookEntry, new_entry, get_original_vop, increment_vnode_counter, decrement_vnode_counter,
  get_vnode_counter,
}
use mac_osx_file_system_filt.Hook.HashTable.{HashTable}
use mac_osx_file_system_filt.Hook.Loop.{hook_loop, unhook_loop, slot}
use mac_osx_file_system_filt.Hook.Registry.{
  Env, Registry, IoReturn, return_success, return_error, return_no_memory, return_no_device,
  is_vreg, is_vdir, got_parent, put_parent, vop_unknown_offset, get_vnode_op_vector, modify_entry,
  retrieve_entry, add_entry, remove_entry, release_entry,
}
use mac_osx_file_system_filt.Vnop.Tables.{
  VopFunc, vop_hook_entries, vop_enum_entries, retrieve_entry_by_enum, retrieve_offset_desc,
}
use mac_osx_file_system_filt.Vnop.VopEnum.{FltVopEnum}

abbrev pub increment : FltVnodeHookEntry → FltVnodeHookEntry
unfolding increment_vnode_counter
increment e = (increment_vnode_counter e).1

abbrev pub decrement : FltVnodeHookEntry → FltVnodeHookEntry
unfolding decrement_vnode_counter
decrement e = (decrement_vnode_counter e).1

-- VREG != vnode_vtype( vnode ) && VDIR != vnode_vtype( vnode )
abbrev pub is_of_no_interest : Env → ℕ → Bool
is_of_no_interest env vnode =
    not (is_vreg (env.vnode_vtype vnode)) && not (is_vdir (env.vnode_vtype vnode))

module _ ⦃g : HashTable⦄ where
  -- The section under the shared lock: an entry that is found is referenced and counted.
  unfoldable pub hook_shared : Registry g.Table → ℕ → ℕ × Registry g.Table
  hook_shared r v_op =
      let (e, r') = retrieve_entry r v_op true in
      if e == 0 then (0, r') else (e, modify_entry r' e increment)

  -- FltVnodeHookEntry::newEntry(): the address of the object, or 0.
  unfoldable pub allocate_entry : Env → Registry g.Table → ℕ × Registry g.Table
  allocate_entry env r =
      let e = env.new_object r.entries in
      if e == 0 then (0, r) else (e, modify_entry r e (λ _. new_entry))

  -- The words and the new entry after the loop, written back.
  unfoldable pub install_hooks : Env → ℕ → ℕ → Registry g.Table → ℕ → Registry g.Table
  install_hooks env vnode v_op r new =
      let (e, words) =
        hook_loop env v_op (env.vnode_vtype vnode) vop_hook_entries (r.entries new, r.words) in
      record r { entries = update r.entries new e; words = words }

  -- The section under the exclusive lock.
  unfoldable pub hook_locked : Env → ℕ → ℕ → ℕ → Registry g.Table → IoReturn × Registry g.Table
  hook_locked env vnode v_op new r =
      let (existing, r') = retrieve_entry r v_op false in
      if not (existing == 0)
      then (return_success, modify_entry r' existing increment)
      else let (added, r'') = add_entry r' v_op new in
        if not added
        then (return_no_memory, r'')
        else (return_success, install_hooks env vnode v_op (modify_entry r'' new increment) new)

  -- That section, and the release of the new entry behind it.
  unfoldable pub hook_exclusive : Env → ℕ → ℕ → ℕ → Registry g.Table → IoReturn × Registry g.Table
  hook_exclusive env vnode v_op new r =
      let (rc, r') = hook_locked env vnode v_op new r in (rc, release_entry r' new)

  -- FltHookVnodeVop from the allocation of a new entry on.
  unfoldable pub hook_new : Env → ℕ → ℕ → Registry g.Table → IoReturn × Registry g.Table
  hook_new env vnode v_op r =
      let (new, r') = allocate_entry env r in
      if new == 0 then (return_no_memory, r') else hook_exclusive env vnode v_op new r'

  -- *isVopHooked is written only on success.
  abbrev pub hooked_if_success :
      IoReturn × Registry g.Table → IoReturn × Option Bool × Registry g.Table
  hooked_if_success (return_success, r) = (return_success, some true, r)
  hooked_if_success (rc, r) = (rc, none, r)

  -- FltHookVnodeVop behind its guards.
  unfoldable pub hook_vector : Env → ℕ → ℕ → Registry g.Table → IoReturn × Registry g.Table
  hook_vector env vnode v_op r =
      let (existing, r') = hook_shared r v_op in
      if not (existing == 0)
      then (return_success, release_entry r' existing)
      else hook_new env vnode v_op r'

  -- FltHookVnodeVop, where the static table exists: the result, *isVopHooked if it is written.
  unfoldable pub flt_hook_vnode_vop :
      Env → Registry g.Table → ℕ → IoReturn × Option Bool × Registry g.Table
  flt_hook_vnode_vop env r vnode =
      let v_op = get_vnode_op_vector env vnode in
      if v_op == vop_unknown_offset
      then (return_error, none, r)
      else if env.vnode_isrecycled vnode
      then (return_no_device, none, r)
      else if is_of_no_interest env vnode
      then (return_success, some false, r)
      else hooked_if_success (hook_vector env vnode v_op r)

  -- The section of FltUnHookVnodeVop under the exclusive lock: the entry that is left to release.
  unfoldable pub unhook_exclusive : Env → ℕ → ℕ → Registry g.Table → ℕ × Registry g.Table
  unhook_exclusive env v_op existing r =
      if not (get_vnode_counter (r.entries existing) == 0)
      then (existing, r)
      else let (removed, r') = remove_entry (release_entry r existing) v_op in
        if removed == 0 then (0, r') else (
          removed,
          record r' { words = unhook_loop env v_op (r'.entries removed) vop_hook_entries r'.words },
        )

  -- `if( existingEntry ) existingEntry->release();`
  unfoldable pub release_if : ℕ × Registry g.Table → Registry g.Table
  release_if (e, r) = if e == 0 then r else release_entry r e

  -- FltUnHookVnodeVop from the decrement on.
  unfoldable pub unhook_entry : Env → ℕ → ℕ → Registry g.Table → Registry g.Table
  unhook_entry env v_op existing r =
      let before = (decrement_vnode_counter (r.entries existing)).0 in
      let r' = modify_entry r existing decrement in
      if not (before == 1)
      then release_entry r' existing
      else release_if (unhook_exclusive env v_op existing r')

  -- FltUnHookVnodeVop behind its guards.
  unfoldable pub unhook_vector : Env → ℕ → Registry g.Table → Registry g.Table
  unhook_vector env v_op r =
      let (existing, r') = retrieve_entry r v_op true in
      if existing == 0 then r' else unhook_entry env v_op existing r'

  -- FltUnHookVnodeVop, where the static table exists.
  unfoldable pub flt_unhook_vnode_vop : Env → Registry g.Table → ℕ → Registry g.Table
  flt_unhook_vnode_vop env r vnode =
      let v_op = get_vnode_op_vector env vnode in
      if is_of_no_interest env vnode
      then r
      else if v_op == vop_unknown_offset
      then r
      else unhook_vector env v_op r

  -- The lookup in the vector itself, for a vector that is no longer hooked; `none` stands for the
  -- use of a descriptor that was not found.
  unfoldable pub current_vnode_op : Env → Registry g.Table → ℕ → FltVopEnum → Option VopFunc
  current_vnode_op env r vnode indx = elim (retrieve_entry_by_enum vop_enum_entries indx) [
    | none ↦ none
    | some enum_desc ↦ elim (retrieve_offset_desc env.offset_descs enum_desc.opve_op) [
      | none ↦ none
      | some offset_desc ↦ some (r.words (slot (get_vnode_op_vector env vnode) offset_desc.offset))
    ]
  ]

  -- The original function kept in a referenced entry, which is released.
  unfoldable pub original_from_entry :
      ℕ → FltVopEnum → Registry g.Table → Option VopFunc × Registry g.Table
  original_from_entry e indx r = (some (get_original_vop (r.entries e) indx), release_entry r e)

  -- FltGetOriginalVnodeOp. The table is searched a second time if the first search fails.
  unfoldable pub flt_get_original_vnode_op :
      Env → Registry g.Table → ℕ → FltVopEnum → Option VopFunc × Registry g.Table
  flt_get_original_vnode_op env r vnode indx =
      let v_op = get_vnode_op_vector env vnode in
      let (first, r') = retrieve_entry r v_op true in
      if not (first == 0)
      then original_from_entry first indx r'
      else let (second, r'') = retrieve_entry r' v_op true in
        if second == 0
        then (current_vnode_op env r'' vnode indx, r'')
        else original_from_entry second indx r''

  -- FltHookVnodeVopAndParent
  unfoldable pub flt_hook_vnode_vop_and_parent : Env → Registry g.Table → ℕ → Registry g.Table
  flt_hook_vnode_vop_and_parent env r vnode =
      let (_, _, r') = flt_hook_vnode_vop env r vnode in
      let parent = env.vnode_getparent vnode in
      if parent == 0
      then r'
      else let held = record r' { events = got_parent parent ∷ r'.events } in
        let (_, _, r'') = flt_hook_vnode_vop env held parent in
        record r'' { events = put_parent parent ∷ r''.events }

  -- FltUnHookVnodeVopAndParent
  unfoldable pub flt_unhook_vnode_vop_and_parent : Env → Registry g.Table → ℕ → Registry g.Table
  flt_unhook_vnode_vop_and_parent env r vnode =
      let r' = flt_unhook_vnode_vop env r vnode in
      let parent = env.vnode_getparent vnode in
      if parent == 0
      then r'
      else let held = record r' { events = got_parent parent ∷ r'.events } in
        let r'' = flt_unhook_vnode_vop env held parent in
        record r'' { events = put_parent parent ∷ r''.events }
