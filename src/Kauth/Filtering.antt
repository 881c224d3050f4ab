-- ===== src/Kauth/Filtering.antt =====
-- What the callback of the vnode scope does with a vnode and its parent.
use mac_osx_file_system_filt.Base.{
  ◌⊎◌, ℕ, ◌≡◌, ◌≢◌, refl, ap, ◌∙◌, Bool-cases, false, inl, inr, List, ==_ne, ◌∷◌,
}
use mac_osx_file_system_filt.Hook.Balance.{flt_hook-vector}
use mac_osx_file_system_filt.Hook.Guards.{IsEligible}
use mac_osx_file_system_filt.Hook.HashTable.{HashTable}
use mac_osx_file_system_filt.Hook.Located.{IsOutside}
use mac_osx_file_system_filt.Hook.Ops.{
  flt_hook_vnode_vop, flt_hook_vnode_vop_and_parent, is_of_no_interest,
}
use mac_osx_file_system_filt.Hook.References.{flt_hook_vnode_vop_and_parent-events, parent_events}
use mac_osx_file_system_filt.Hook.Registry.{
  Env, Registry, get_vnode_op_vector, VnodeEvent, got_parent, put_parent,
}
use mac_osx_file_system_filt.Hook.Vector.{IsHooked, IsLaidOut, slots}
use mac_osx_file_system_filt.Hook.Vector.Again.{hook_again}
use mac_osx_file_system_filt.Hook.Vector.Fresh.{IsFresh, hook_fresh}
use mac_osx_file_system_filt.Kauth.{vnode_authorize_callback, kauth_result_defer}

module _ ⦃g : HashTable⦄ (env : Env) (r : Registry g.Table) (vnode : ℕ) where
  -- The callback leaves every decision to other listeners, and gives back the reference on a
  -- parent that it takes; a vnode that is recycled, or neither a file nor a directory, makes no
  -- change.
  pub vnode_authorize_callback_lem :
      ((vnode_authorize_callback env r vnode).0 ≡ kauth_result_defer)
      × (((vnode_authorize_callback env r vnode).1 ≡ r)
          ⊎ ((env.vnode_isrecycled vnode ≡ false)
              × (is_of_no_interest env vnode ≡ false)
              × ((vnode_authorize_callback env r vnode).1.events
                  ≡ parent_events env vnode r.events)))
  unfolding vnode_authorize_callback
  vnode_authorize_callback_lem = elim (Bool-cases (env.vnode_isrecycled vnode)) [
    | inl dead ↦ rw dead (refl, inl refl)
    | inr live ↦ elim (Bool-cases (is_of_no_interest env vnode)) [
      | inl skip ↦ rw (live, skip) (refl, inl refl)
      | inr want ↦
          rw (live, want)
            (refl, inr (refl, refl, (flt_hook_vnode_vop_and_parent-events env r vnode).0))
    ]
  ]

  callback-eligible :
      IsEligible env vnode
      → vnode_authorize_callback env r vnode
        ≡ (kauth_result_defer, flt_hook_vnode_vop_and_parent env r vnode)
  unfolding vnode_authorize_callback
  callback-eligible ok = rw (ok.live, ok.interesting)

  module _ (v_op : ℕ) (parent : ℕ) (is_parent : env.vnode_getparent vnode ≡ parent)
      (exists : parent ≢ 0) where
    -- The state in which the parent is treated.
    abbrev held : Registry g.Table
    held =
        let s = (flt_hook_vnode_vop env r vnode).2 in
        record s { events = got_parent parent ∷ s.events }

    with_parent :
        flt_hook_vnode_vop_and_parent env r vnode ≡ record (flt_hook_vnode_vop env held parent).2 {
          events = put_parent parent ∷ (flt_hook_vnode_vop env held parent).2.events;
        }
    unfolding flt_hook_vnode_vop_and_parent
    with_parent = rw (is_parent, ==_ne _ _ exists)

    -- The first callback for an eligible vnode whose vector is not hooked yet, and whose
    -- eligible parent shares the vector, leaves the vector hooked with a count of two, and a
    -- word `a` outside its slots as it was, where the slots are different wired words and there
    -- is room for the entry.
    pub vnode_authorize_callback-IsHooked :
        IsEligible env vnode
        → IsEligible env parent
        → get_vnode_op_vector env vnode ≡ v_op
        → get_vnode_op_vector env parent ≡ v_op
        → IsLaidOut env v_op
        → IsFresh env vnode v_op r
        → (a : ℕ) → IsOutside a (slots env v_op)
        → IsHooked env v_op r.words 2 (vnode_authorize_callback env r vnode).1
          × ((vnode_authorize_callback env r vnode).1.words a ≡ r.words a)
    vnode_authorize_callback-IsHooked ok ok' same same' laid f a out =
        let (_, first, outside, _, _, _) = hook_fresh env vnode v_op r f ok.interesting laid in
        let s = flt_hook-vector env v_op r vnode ok same in
        let s' = flt_hook-vector env v_op held parent ok' same' in
        let h : IsHooked env v_op r.words 1 held = again (rw (← s) at first) in
        let (_, words, _, second) = hook_again h parent in
        rw (callback-eligible ok, with_parent)
          (
            again (rw (← s') at second),
            ap (λ x. x.words a) s' ∙ ap (λ w. w a) words ∙ ap (λ x. x.words a) s ∙ outside a out,
          )
      where
        again :
            {n : ℕ} {t : Registry g.Table} {es : List VnodeEvent}
            → IsHooked env v_op r.words n t
            → IsHooked env v_op r.words n (record t { events = es })
        again h = record {
          found = h.found;
          retained = h.retained;
          counted = h.counted;
          kept = h.kept;
          hooks = h.hooks;
        }
