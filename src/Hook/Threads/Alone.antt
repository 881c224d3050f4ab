-- ===== src/Hook/Threads/Alone.antt =====
-- A thread that is not interrupted: its steps are the functions of FsdFilter/VNodeHook.cpp.
use mac_osx_file_system_filt.Base.{
  ℕ, zero, suc, ◌≡◌, refl, true, Bool-cases, inl, inr, ◌==◌, ==_ne, eq_of_==, ne_of_==,
}
use mac_osx_file_system_filt.Hook.Entry.{decrement_vnode_counter, retain}
use mac_osx_file_system_filt.Hook.HashTable.{HashTable}
use mac_osx_file_system_filt.Hook.Lookup.{retrieve-found, retrieve-missing}
use mac_osx_file_system_filt.Hook.Ops.{
  decrement, allocate_entry, hook_exclusive, hook_new, hook_vector, hook_shared, unhook_exclusive,
  release_if, unhook_entry, unhook_vector, original_from_entry, flt_get_original_vnode_op,
}
use mac_osx_file_system_filt.Hook.Registry.{Env, Registry, modify_entry, get_vnode_op_vector}
use mac_osx_file_system_filt.Hook.Threads.{
  Pc, hook_starts, unhook_starts, lookup_starts, returned, answered, advance,
}
use mac_osx_file_system_filt.Hook.Vector.Again.{hook_vector-found}
use mac_osx_file_system_filt.Vnop.VopEnum.{FltVopEnum}

module _ ⦃g : HashTable⦄ (env : Env) where
  -- This many steps of one thread, with no other in between.
  alone : ℕ → Pc × Registry g.Table → Pc × Registry g.Table
  alone zero st = st
  alone (suc k) (p, r) = alone k (advance env p r)

  module _ (r : Registry g.Table) where
    hook_vector-missing :
        (vnode v_op : ℕ)
        → g.ght_get r.table v_op ≡ 0
        → hook_vector env vnode v_op r ≡ hook_new env vnode v_op r
    unfolding hook_vector hook_shared
    hook_vector-missing vnode v_op missing = rw (retrieve-missing r missing true)

    alone-hook :
        (vnode v_op : ℕ)
        → alone 5 (hook_starts vnode v_op, r) ≡ (returned, (hook_vector env vnode v_op r).1)
    unfolding alone advance hook_new hook_exclusive
    alone-hook vnode v_op = elim (Bool-cases (g.ght_get r.table v_op == 0)) [
      | inl null ↦
          let m = eq_of_== _ _ null in
          rw (hook_vector-missing vnode v_op m, retrieve-missing r m true)
            (elim (Bool-cases ((allocate_entry env r).0 == 0)) [
              | inl failed ↦ rw failed refl
              | inr got ↦ rw got refl
            ])
      | inr some ↦
          let f = ne_of_== _ _ some in
          rw (hook_vector-found r f env vnode, retrieve-found r f, ==_ne _ _ f) refl
    ]

    alone-unhook :
        (v_op : ℕ) → alone 5 (unhook_starts v_op, r) ≡ (returned, unhook_vector env v_op r)
    unfolding alone advance unhook_vector unhook_entry release_if
    alone-unhook v_op = elim (Bool-cases (g.ght_get r.table v_op == 0)) [
      | inl null ↦ rw (retrieve-missing r (eq_of_== _ _ null) true) refl
      | inr some ↦
          let f = ne_of_== _ _ some in
          let e = g.ght_get r.table v_op in
          let r' = modify_entry r e retain in
          rw (retrieve-found r f, ==_ne _ _ f)
            (elim (Bool-cases ((decrement_vnode_counter (r'.entries e)).0 == 1)) [
              | inr more ↦ rw more refl
              | inl last ↦
                  rw last
                    (elim (Bool-cases
                      ((unhook_exclusive env v_op e (modify_entry r' e decrement)).0 == 0)) [
                        | inl gone ↦ rw gone refl
                        | inr left ↦ rw left refl
                      ])
            ])
    ]

    alone-lookup :
        (vnode : ℕ) (indx : FltVopEnum)
        → alone 3 (lookup_starts vnode indx, r) ≡ (
          answered vnode indx (flt_get_original_vnode_op env r vnode indx).0,
          (flt_get_original_vnode_op env r vnode indx).1,
        )
    unfolding alone advance flt_get_original_vnode_op original_from_entry
    alone-lookup vnode indx =
        let v_op = get_vnode_op_vector env vnode in
        elim (Bool-cases (g.ght_get r.table v_op == 0)) [
          | inl null ↦ let m = retrieve-missing r (eq_of_== _ _ null) true in rw (m, m) refl
          | inr some ↦ let f = ne_of_== _ _ some in rw (retrieve-found r f, ==_ne _ _ f) refl
        ]

    -- The steps of a thread that no other interrupts are the call: with the vector of the vnode,
    -- five steps from the start of FltHookVnodeVop or FltUnHookVnodeVop, behind their guards, leave
    -- what the function leaves, and three steps of FltGetOriginalVnodeOp leave what it leaves and
    -- answer what it answers.
    alone_lem :
        (vnode v_op : ℕ) (indx : FltVopEnum)
        → (alone 5 (hook_starts vnode v_op, r) ≡ (returned, (hook_vector env vnode v_op r).1))
          × (alone 5 (unhook_starts v_op, r) ≡ (returned, unhook_vector env v_op r))
          × (alone 3 (lookup_starts vnode indx, r) ≡ (
            answered vnode indx (flt_get_original_vnode_op env r vnode indx).0,
            (flt_get_original_vnode_op env r vnode indx).1,
          ))
    alone_lem vnode v_op indx = (alone-hook vnode v_op, alone-unhook v_op, alone-lookup vnode indx)
