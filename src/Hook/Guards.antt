-- ===== src/Hook/Guards.antt =====
-- The guards of FltHookVnodeVop and FltUnHookVnodeVop, and the failures of FltHookVnodeVop.
use mac_osx_file_system_filt.Base.{
  ℕ, ◌∙◌, ◌≡◌, ◌≢◌, refl, none, some, inl, inr, false, ◌==◌, ==_ne, true, Bool-cases, eq_of_==,
  ne_of_==, ap,
}
use mac_osx_file_system_filt.Hook.HashTable.{HashTable}
use mac_osx_file_system_filt.Hook.Ops.{
  flt_hook_vnode_vop, flt_unhook_vnode_vop, hooked_if_success, hook_vector, unhook_vector,
  is_of_no_interest,
}
use mac_osx_file_system_filt.Hook.Registry.{
  Env, Registry, IoReturn, return_success, return_no_memory, return_error, return_no_device,
  return_internal_error, vop_unknown_offset, get_vnode_op_vector,
}
use mac_osx_file_system_filt.Hook.Room.{HasNoRoom, LooksSame, LooksSame-refl, hook_vector_failed}

-- A vnode that the filter hooks: its vector is known, it is not recycled, and it is a file or a
-- directory.
pub record IsEligible (env : Env) (vnode : ℕ) : Type 0 where
  pub known : get_vnode_op_vector env vnode ≢ vop_unknown_offset
  pub live : env.vnode_isrecycled vnode ≡ false
  pub interesting : is_of_no_interest env vnode ≡ false

module _ ⦃g : HashTable⦄ {env : Env} {vnode : ℕ} (r : Registry g.Table)
    (h : IsEligible env vnode) where
  pub flt_hook_vnode_vop-eligible :
      flt_hook_vnode_vop env r vnode
      ≡ hooked_if_success (hook_vector env vnode (get_vnode_op_vector env vnode) r)
  unfolding flt_hook_vnode_vop
  flt_hook_vnode_vop-eligible = rw (==_ne _ _ h.known, h.live, h.interesting)

-- A vnode that the filter unhooks: its vector is known, and it is a file or a directory, which may
-- be recycled by now.
pub record IsUnhookable (env : Env) (vnode : ℕ) : Type 0 where
  pub known : get_vnode_op_vector env vnode ≢ vop_unknown_offset
  pub interesting : is_of_no_interest env vnode ≡ false

module _ ⦃g : HashTable⦄ {env : Env} {vnode : ℕ} (r : Registry g.Table)
    (h : IsUnhookable env vnode) where
  pub flt_unhook_vnode_vop-unhookable :
      flt_unhook_vnode_vop env r vnode ≡ unhook_vector env (get_vnode_op_vector env vnode) r
  unfolding flt_unhook_vnode_vop
  flt_unhook_vnode_vop-unhookable = rw (==_ne _ _ h.known, h.interesting)

module _ ⦃g : HashTable⦄ where
  pub hooked_if_success-code :
      (x : IoReturn × Registry g.Table)
      → ((hooked_if_success x).0 ≡ x.0) × ((hooked_if_success x).2 ≡ x.1)
  hooked_if_success-code (return_success, r) = (refl, refl)
  hooked_if_success-code (return_error, r) = (refl, refl)
  hooked_if_success-code (return_no_memory, r) = (refl, refl)
  hooked_if_success-code (return_no_device, r) = (refl, refl)
  hooked_if_success-code (return_internal_error, r) = (refl, refl)

  module _ (env : Env) (r : Registry g.Table) (vnode : ℕ) where
    unknown-code :
        get_vnode_op_vector env vnode ≡ vop_unknown_offset
        → flt_hook_vnode_vop env r vnode ≡ (return_error, none, r)
    unfolding flt_hook_vnode_vop
    unknown-code e = rw e

    recycled-code :
        get_vnode_op_vector env vnode ≢ vop_unknown_offset
        → env.vnode_isrecycled vnode ≡ true
        → flt_hook_vnode_vop env r vnode ≡ (return_no_device, none, r)
    unfolding flt_hook_vnode_vop
    recycled-code known e = rw (==_ne _ _ known, e)

    skipped-code :
        get_vnode_op_vector env vnode ≢ vop_unknown_offset
        → env.vnode_isrecycled vnode ≡ false
        → is_of_no_interest env vnode ≡ true
        → flt_hook_vnode_vop env r vnode ≡ (return_success, some false, r)
    unfolding flt_hook_vnode_vop
    skipped-code known live e = rw (==_ne _ _ known, live, e)

    -- Why FltHookVnodeVop refused a vnode.
    abbrev pub Refusal : IoReturn → Type 0
    Refusal return_success = ⊥
    Refusal return_error = get_vnode_op_vector env vnode ≡ vop_unknown_offset
    Refusal return_no_device = env.vnode_isrecycled vnode ≡ true
    Refusal return_no_memory =
        IsEligible env vnode
        × (g.ght_get r.table (get_vnode_op_vector env vnode) ≡ 0)
        × HasNoRoom env (get_vnode_op_vector env vnode) r
    Refusal return_internal_error = ⊥

    -- With a well-formed table, a call of FltHookVnodeVop that does not return success has the
    -- reason of `Refusal` for its code: kIOReturnError that the vector is unknown,
    -- kIOReturnNoDevice that the vnode is recycled, and kIOReturnNoMemory that the vector is not
    -- in the table and that there is no memory for an entry object or the table does not take it.
    -- It leaves *isVopHooked unwritten, changes no word of a vector and no lookup in the table, and
    -- leaves the table well formed.
    pub flt_hook_vnode_vop_failed :
        g.IsValid r.table
        → (flt_hook_vnode_vop env r vnode).0 ≢ return_success
        → Refusal (flt_hook_vnode_vop env r vnode).0
          × ((flt_hook_vnode_vop env r vnode).1 ≡ none)
          × LooksSame r (flt_hook_vnode_vop env r vnode).2
    flt_hook_vnode_vop_failed valid failed =
        elim (Bool-cases (get_vnode_op_vector env vnode == vop_unknown_offset)) [
          | inl u ↦
              rw (unknown-code (eq_of_== _ _ u)) (eq_of_== _ _ u, refl, LooksSame-refl r valid)
          | inr k ↦ elim (Bool-cases (env.vnode_isrecycled vnode)) [
            | inl dead ↦
                rw (recycled-code (ne_of_== _ _ k) dead) (dead, refl, LooksSame-refl r valid)
            | inr live ↦ elim (Bool-cases (is_of_no_interest env vnode)) [
              | inl skip ↦ absurd (failed (ap (λ x. x.0) (skipped-code (ne_of_== _ _ k) live skip)))
              | inr want ↦
                  refused (record { known = ne_of_== _ _ k; live = live; interesting = want })
            ]
          ]
        ]
      where
        refused :
            IsEligible env vnode
            → Refusal (flt_hook_vnode_vop env r vnode).0
              × ((flt_hook_vnode_vop env r vnode).1 ≡ none)
              × LooksSame r (flt_hook_vnode_vop env r vnode).2
        refused ok =
            let x = hook_vector env vnode (get_vnode_op_vector env vnode) r in
            let (rc, registry) = hooked_if_success-code x in
            let e = flt_hook_vnode_vop-eligible r ok in
            let bad : x.0 ≢ return_success = λ p. failed (rw e (rc ∙ p)) in
            let (code, missing, no_room, same) =
              hook_vector_failed env vnode (get_vnode_op_vector env vnode) r valid bad in
            rw (e, rc, registry, code) ((ok, missing, no_room), refl, same)
