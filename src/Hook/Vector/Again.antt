-- ===== src/Hook/Vector/Again.antt =====
-- A further vnode of a vector that is hooked already.
use mac_osx_file_system_filt.Base.{ℕ, ◌+◌, ◌%◌, ◌^◌, ◌≡◌, ◌≢◌, refl, arith, ==_ne, ==_refl}
use mac_osx_file_system_filt.Hook.Entry.{increment_vnode_counter, retain, release}
use mac_osx_file_system_filt.Hook.HashTable.{HashTable}
use mac_osx_file_system_filt.Hook.Ops.{hook_vector, hook_shared, increment}
use mac_osx_file_system_filt.Hook.Registry.{
  Env, Registry, return_success, release_entry, modify_entry,
}
use mac_osx_file_system_filt.Hook.Lookup.{retrieve-found}
use mac_osx_file_system_filt.Hook.Vector.{IsHooked}
use mac_osx_file_system_filt.Vnop.Tables.{VopFunc}

module _ ⦃g : HashTable⦄ {v_op : ℕ} (r : Registry g.Table)
    (found : g.ght_get r.table v_op ≢ 0) where
  pub hook_shared-found : hook_shared r v_op ≡ (
    g.ght_get r.table v_op,
    modify_entry
        (modify_entry r (g.ght_get r.table v_op) retain)
        (g.ght_get r.table v_op)
        increment,
  )
  unfolding hook_shared
  hook_shared-found = rw (retrieve-found r found, ==_ne _ _ found)

  pub hook_vector-found :
      (env : Env) (vnode : ℕ)
      → hook_vector env vnode v_op r ≡ (
        return_success,
        release_entry
            (modify_entry
              (modify_entry r (g.ght_get r.table v_op) retain)
              (g.ght_get r.table v_op)
              increment)
            (g.ght_get r.table v_op),
      )
  unfolding hook_vector
  hook_vector-found env vnode = rw (hook_shared-found, ==_ne _ _ found)

module _ ⦃g : HashTable⦄ {env : Env} {v_op : ℕ} {before : ℕ → VopFunc} {n : ℕ}
    {r : Registry g.Table} (h : IsHooked env v_op before n r) where
  pub hook_again :
      (vnode : ℕ)
      → ((hook_vector env vnode v_op r).0 ≡ return_success)
        × ((hook_vector env vnode v_op r).1.words ≡ r.words)
        × ((hook_vector env vnode v_op r).1.table ≡ r.table)
        × IsHooked env v_op before ((n + 1) % 2 ^ 32) (hook_vector env vnode v_op r).1
  unfolding release_entry increment_vnode_counter retain release
  hook_again vnode = rw (hook_vector-found r h.found env vnode) (
    refl,
    refl,
    refl,
    record {
      found = h.found;
      retained = rw (==_refl (g.ght_get r.table v_op)) (omega (arith, h.retained));
      counted = rw (==_refl (g.ght_get r.table v_op), h.counted);
      kept = rw (==_refl (g.ght_get r.table v_op)) h.kept;
      hooks = h.hooks;
    },
  )
