-- ===== src/VfsHooks/Always.antt =====
-- The original function of a slot after any sequence of hookings and unhookings.
use mac_osx_file_system_filt.Base.{
  ℕ, zero, suc, ◌+◌, ◌^◌, ◌<◌, ◌≡◌, ◌≢◌, ap, ◌∙◌, All, All-get_elem?, get_elem?, List, length, some,
}
use mac_osx_file_system_filt.Hook.HashTable.{HashTable}
use mac_osx_file_system_filt.Hook.Located.{Located}
use mac_osx_file_system_filt.Hook.Ops.{flt_get_original_vnode_op}
use mac_osx_file_system_filt.Hook.Refinement.{
  Action, IsAllowed, IsCounted, Represents, perform_all, perform_all-Represents, tally,
}
use mac_osx_file_system_filt.Hook.Registry.{Env, Registry, get_vnode_op_vector}
use mac_osx_file_system_filt.Hook.Vector.{IsLaidOut, slots}
use mac_osx_file_system_filt.VfsHooks.Original.{get_original-hooked, get_original-unhooked}
use mac_osx_file_system_filt.Vnop.Tables.{VopFunc, vop_not_hooked}

module _ ⦃g : HashTable⦄ (env : Env) (v_op : ℕ) (before : ℕ → VopFunc) where
  get_original-counted :
      (n : ℕ) (r : Registry g.Table) (i : ℕ) (l : Located) (vnode : ℕ)
      → get_elem? (slots env v_op) i ≡ some l
      → get_vnode_op_vector env vnode ≡ v_op
      → IsCounted env v_op before n r
      → (flt_get_original_vnode_op env r vnode l.indx).0 ≡ some (before l.address)
  get_original-counted zero r i l vnode at same p =
      ap (λ x. x.0)
        (All-get_elem? _ (slots env v_op) i l (get_original-unhooked env v_op vnode same r p.0) at)
      ∙ ap some (All-get_elem? _ (slots env v_op) i l p.1 at)
  get_original-counted (suc n) r i l vnode at same p =
      ap (λ x. x.0)
        (All-get_elem? _ (slots env v_op) i l (get_original-hooked env v_op vnode same r p) at)

  -- Under the same conditions, after any sequence of calls of FltHookVnodeVop and
  -- FltUnHookVnodeVop on vnodes of a vector, whatever the count by then, FltGetOriginalVnodeOp
  -- finds for a vnode of the vector and the index of each slot the function that was in the slot
  -- before the first call.
  pub flt_get_original-perform_all :
      IsLaidOut env v_op
      → All (λ l. before l.address ≢ vop_not_hooked) (slots env v_op)
      → (actions : List Action) (n : ℕ) (r : Registry g.Table) → All (IsAllowed env v_op) actions
      → n + length actions < 2 ^ 32
      → Represents env v_op before n r
      → (i : ℕ) (l : Located) (vnode : ℕ) → get_elem? (slots env v_op) i ≡ some l
      → get_vnode_op_vector env vnode ≡ v_op
      → (flt_get_original_vnode_op env (perform_all env actions r) vnode l.indx).0
        ≡ some (before l.address)
  flt_get_original-perform_all laid plain actions n r ok small p i l vnode at same =
      let last = perform_all-Represents env v_op before laid plain actions n r ok small p in
      get_original-counted (tally env v_op actions n r) _ i l vnode at same last.counted
