-- ===== src/VfsHooks/Original.antt =====
-- FltGetOriginalVnodeOp on a hooked vector, and on one that is not hooked or no longer so.
use mac_osx_file_system_filt.Base.{
  ℕ, ◌≡◌, ◌≢◌, refl, ap, All, All-zip, arith, some, ==_ne, ==_refl, true, ◌∙◌,
}
use mac_osx_file_system_filt.Hook.Entry.{get_original_vop, retain, release}
use mac_osx_file_system_filt.Hook.HashTable.{HashTable}
use mac_osx_file_system_filt.Hook.Lookup.{retrieve-found, retrieve-missing}
use mac_osx_file_system_filt.Hook.Ops.{
  flt_get_original_vnode_op, original_from_entry, current_vnode_op,
}
use mac_osx_file_system_filt.Hook.Registry.{
  Env, Registry, get_vnode_op_vector, modify_entry, release_entry,
}
use mac_osx_file_system_filt.Hook.Vector.{IsHooked, slots}
use mac_osx_file_system_filt.VfsHooks.Index.{IsPlaced, slots-IsPlaced}
use mac_osx_file_system_filt.Vnop.Tables.{VopFunc}
use mac_osx_file_system_filt.Vnop.VopEnum.{FltVopEnum}

module _ ⦃g : HashTable⦄ (env : Env) (v_op : ℕ) (vnode : ℕ)
    (same : get_vnode_op_vector env vnode ≡ v_op) (r : Registry g.Table) where
  -- The entry is referenced and released again.
  abbrev pub visited : Registry g.Table
  visited = release_entry (modify_entry r (g.ght_get r.table v_op) retain) (g.ght_get r.table v_op)

  get_original-found :
      (indx : FltVopEnum)
      → g.ght_get r.table v_op ≢ 0
      → flt_get_original_vnode_op env r vnode indx
        ≡ (some ((r.entries (g.ght_get r.table v_op)).orig_vop indx), visited)
  unfolding flt_get_original_vnode_op original_from_entry get_original_vop retain
  get_original-found indx found =
      rw (same, retrieve-found r found, ==_ne _ _ found, ==_refl (g.ght_get r.table v_op)) refl

  get_original-missing :
      (indx : FltVopEnum)
      → g.ght_get r.table v_op ≡ 0
      → flt_get_original_vnode_op env r vnode indx ≡ (current_vnode_op env r vnode indx, r)
  unfolding flt_get_original_vnode_op
  get_original-missing indx missing =
      rw (same, retrieve-missing r missing true, retrieve-missing r missing true)

  -- On a vector that is not in the table, the function in the slot is returned.
  pub get_original-unhooked :
      g.ght_get r.table v_op ≡ 0
      → All
          (λ l. flt_get_original_vnode_op env r vnode l.indx ≡ (some (r.words l.address), r))
          (slots env v_op)
  get_original-unhooked missing =
      let placed = slots-IsPlaced env v_op in
      All-zip (slots env v_op)
        (λ l (p : IsPlaced env v_op l) _.
          rw (get_original-missing l.indx missing, p.current r vnode same))
        placed placed

  module _ {before : ℕ → VopFunc} {n : ℕ} (h : IsHooked env v_op before n r) where
    -- The visit leaves the vector hooked.
    pub visited-IsHooked : IsHooked env v_op before n visited
    unfolding release_entry release retain
    visited-IsHooked = record {
      found = h.found;
      retained = rw (==_refl (g.ght_get r.table v_op)) (omega (arith, h.retained));
      counted = rw (==_refl (g.ght_get r.table v_op), h.counted);
      kept = rw (==_refl (g.ght_get r.table v_op)) h.kept;
      hooks = h.hooks;
    }

    -- On a hooked vector, the function is returned that was in the slot before the vector was
    -- hooked.
    pub get_original-hooked :
        All
          (λ l. flt_get_original_vnode_op env r vnode l.indx ≡ (some (before l.address), visited))
          (slots env v_op)
    get_original-hooked =
        All-zip (slots env v_op)
          (λ l kept _. get_original-found l.indx h.found ∙ ap (λ f. (some f, visited)) kept) h.kept
          h.kept
