-- ===== src/Hook/References.antt =====
-- The I/O references on vnodes that the functions of FsdFilter/VNodeHook.cpp take and give back.
use mac_osx_file_system_filt.Base.{
  ℕ, ◌≡◌, refl, ap, ◌∙◌, true, false, Bool, Bool-cases, inl, inr, List, ◌∷◌, if◌then◌else◌, ◌==◌,
  not, ◌&&◌,
}
use mac_osx_file_system_filt.Hook.Entry.{decrement_vnode_counter, get_vnode_counter}
use mac_osx_file_system_filt.Hook.HashTable.{HashTable}
use mac_osx_file_system_filt.Hook.Ops.{
  hook_shared, allocate_entry, install_hooks, hook_exclusive, hook_locked, hook_new, hook_vector,
  flt_hook_vnode_vop, unhook_exclusive, release_if, unhook_entry, unhook_vector,
  flt_unhook_vnode_vop, flt_hook_vnode_vop_and_parent, flt_unhook_vnode_vop_and_parent,
  is_of_no_interest, decrement,
}
use mac_osx_file_system_filt.Hook.Guards.{hooked_if_success-code}
use mac_osx_file_system_filt.Hook.Registry.{
  Env, Registry, VnodeEvent, got_parent, put_parent, retrieve_entry, add_entry, remove_entry,
  release_entry, modify_entry, is_ok, get_vnode_op_vector, vop_unknown_offset,
}

-- One value under both branches of a test.
if_same :
    {A B : Type 0} (f : A → B) (c : Bool) (x y : A) (z : B)
    → f x ≡ z
    → f y ≡ z
    → f (if c then x else y) ≡ z
if_same f true x y z p q = p
if_same f false x y z p q = q

abbrev registry_events : {T : Type 0} → Registry T → List VnodeEvent
registry_events r = r.events

abbrev pair_events : {A T : Type 0} → A × Registry T → List VnodeEvent
pair_events x = x.1.events

abbrev triple_events : {A B T : Type 0} → A × B × Registry T → List VnodeEvent
triple_events x = x.2.events

module _ ⦃g : HashTable⦄ where
  retrieve_entry-events :
      (r : Registry g.Table) (v_op : ℕ) (b : Bool) → (retrieve_entry r v_op b).1.events ≡ r.events
  unfolding retrieve_entry
  retrieve_entry-events r v_op b =
      if_same pair_events (not (g.ght_get r.table v_op == 0) && b) _ _ _ refl refl

  add_entry-events : (r : Registry g.Table) (v_op e : ℕ) → (add_entry r v_op e).1.events ≡ r.events
  unfolding add_entry
  add_entry-events r v_op e =
      if_same pair_events (is_ok (g.ght_insert r.table e v_op).0) _ _ _ refl refl

  hook_shared-events : (r : Registry g.Table) (v_op : ℕ) → (hook_shared r v_op).1.events ≡ r.events
  unfolding hook_shared
  hook_shared-events r v_op =
      let p = retrieve_entry-events r v_op true in
      if_same pair_events ((retrieve_entry r v_op true).0 == 0) _ _ _ p p

  allocate_entry-events :
      (env : Env) (r : Registry g.Table) → (allocate_entry env r).1.events ≡ r.events
  unfolding allocate_entry
  allocate_entry-events env r = if_same pair_events (env.new_object r.entries == 0) _ _ _ refl refl

  hook_exclusive-events :
      (env : Env) (vnode v_op new : ℕ) (r : Registry g.Table)
      → (hook_exclusive env vnode v_op new r).1.events ≡ r.events
  unfolding hook_exclusive hook_locked release_entry install_hooks
  hook_exclusive-events env vnode v_op new r =
      let p = retrieve_entry-events r v_op false in
      let s = (retrieve_entry r v_op false).1 in
      let q = add_entry-events s v_op new in
      if_same pair_events (not ((retrieve_entry r v_op false).0 == 0)) _ _ _ p
        (if_same pair_events (not (add_entry s v_op new).0) _ _ _ (q ∙ p) (q ∙ p))

  hook_vector-events :
      (env : Env) (vnode v_op : ℕ) (r : Registry g.Table)
      → (hook_vector env vnode v_op r).1.events ≡ r.events
  unfolding hook_vector hook_new release_entry
  hook_vector-events env vnode v_op r =
      let p = hook_shared-events r v_op in
      let s = (hook_shared r v_op).1 in
      let q = allocate_entry-events env s ∙ p in
      if_same pair_events (not ((hook_shared r v_op).0 == 0)) _ _ _ p (
        if_same pair_events ((allocate_entry env s).0 == 0) _ _ _ q
          (hook_exclusive-events env vnode v_op _ _ ∙ q))

  pub flt_hook_vnode_vop-events :
      (env : Env) (r : Registry g.Table) (vnode : ℕ)
      → (flt_hook_vnode_vop env r vnode).2.events ≡ r.events
  unfolding flt_hook_vnode_vop
  flt_hook_vnode_vop-events env r vnode =
      let v_op = get_vnode_op_vector env vnode in
      let x = hook_vector env vnode v_op r in
      if_same triple_events (v_op == vop_unknown_offset) _ _ _ refl (
        if_same triple_events (env.vnode_isrecycled vnode) _ _ _ refl (
          if_same triple_events (is_of_no_interest env vnode) _ _ _ refl (
            ap (λ s. s.events) (hooked_if_success-code x).1 ∙ hook_vector-events env vnode v_op r)))

  unhook_exclusive-events :
      (env : Env) (v_op e : ℕ) (r : Registry g.Table)
      → (unhook_exclusive env v_op e r).1.events ≡ r.events
  unfolding unhook_exclusive remove_entry release_entry
  unhook_exclusive-events env v_op e r =
      if_same pair_events (not (get_vnode_counter (r.entries e) == 0)) _ _ _ refl
        (if_same pair_events ((g.ght_remove r.table v_op).0 == 0) _ _ _ refl refl)

  release_if-events : (e : ℕ) (r : Registry g.Table) → (release_if (e, r)).events ≡ r.events
  unfolding release_if release_entry
  release_if-events e r = if_same registry_events (e == 0) _ _ _ refl refl

  unhook_entry-events :
      (env : Env) (v_op e : ℕ) (r : Registry g.Table)
      → (unhook_entry env v_op e r).events ≡ r.events
  unfolding unhook_entry release_entry
  unhook_entry-events env v_op e r =
      let lowered = modify_entry r e decrement in
      let x = unhook_exclusive env v_op e lowered in
      if_same registry_events (not ((decrement_vnode_counter (r.entries e)).0 == 1)) _ _ _ refl
        (release_if-events x.0 x.1 ∙ unhook_exclusive-events env v_op e lowered)

  unhook_vector-events :
      (env : Env) (v_op : ℕ) (r : Registry g.Table) → (unhook_vector env v_op r).events ≡ r.events
  unfolding unhook_vector
  unhook_vector-events env v_op r =
      let (e, s) = retrieve_entry r v_op true in
      let p = retrieve_entry-events r v_op true in
      if_same registry_events (e == 0) _ _ _ p (unhook_entry-events env v_op e s ∙ p)

  pub flt_unhook_vnode_vop-events :
      (env : Env) (r : Registry g.Table) (vnode : ℕ)
      → (flt_unhook_vnode_vop env r vnode).events ≡ r.events
  unfolding flt_unhook_vnode_vop
  flt_unhook_vnode_vop-events env r vnode =
      let v_op = get_vnode_op_vector env vnode in
      if_same registry_events (is_of_no_interest env vnode) _ _ _ refl (
        if_same registry_events (v_op == vop_unknown_offset) _ _ _ refl
          (unhook_vector-events env v_op r))

  -- The references taken and given back while a vnode and its parent are treated.
  abbrev pub parent_events : Env → ℕ → List VnodeEvent → List VnodeEvent
  parent_events env vnode events =
      let p = env.vnode_getparent vnode in
      if p == 0 then events else put_parent p ∷ got_parent p ∷ events

  -- FltHookVnodeVopAndParent and FltUnHookVnodeVopAndParent take one reference, on the parent if
  -- there is one, and have given it back when they return; no other reference is taken or given
  -- back in between.
  pub flt_hook_vnode_vop_and_parent-events :
      (env : Env) (r : Registry g.Table) (vnode : ℕ)
      → ((flt_hook_vnode_vop_and_parent env r vnode).events ≡ parent_events env vnode r.events)
        × ((flt_unhook_vnode_vop_and_parent env r vnode).events ≡ parent_events env vnode r.events)
  unfolding flt_hook_vnode_vop_and_parent flt_unhook_vnode_vop_and_parent
  flt_hook_vnode_vop_and_parent-events env r vnode =
      let p = env.vnode_getparent vnode in
      let both = λ (es : List VnodeEvent). put_parent p ∷ es in
      let own = flt_hook_vnode_vop-events env r vnode in
      let own' = flt_unhook_vnode_vop-events env r vnode in
      elim (Bool-cases (p == 0)) [
        | inl none ↦ rw none (own, own')
        | inr some ↦ rw some (
          ap both (flt_hook_vnode_vop-events env _ p ∙ ap (λ es. got_parent p ∷ es) own),
          ap both (flt_unhook_vnode_vop-events env _ p ∙ ap (λ es. got_parent p ∷ es) own'),
        )
      ]
