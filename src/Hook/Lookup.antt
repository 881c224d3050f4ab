-- ===== src/Hook/Lookup.antt =====
-- FltVnodeHooksHashTable::RetrieveEntry on a vector that is in the table, and on one that is not.
use mac_osx_file_system_filt.Base.{ℕ, ◌≡◌, ◌≢◌, true, false, Bool, ==_ne, arith}
use mac_osx_file_system_filt.Hook.Entry.{retain}
use mac_osx_file_system_filt.Hook.HashTable.{HashTable}
use mac_osx_file_system_filt.Hook.Registry.{Registry, retrieve_entry, modify_entry}

module _ ⦃g : HashTable⦄ {v_op : ℕ} (r : Registry g.Table)
    (found : g.ght_get r.table v_op ≢ 0) where
  pub retrieve-found :
      retrieve_entry r v_op true
      ≡ (g.ght_get r.table v_op, modify_entry r (g.ght_get r.table v_op) retain)
  unfolding retrieve_entry
  retrieve-found = rw (==_ne _ _ found)

module _ ⦃g : HashTable⦄ {v_op : ℕ} (r : Registry g.Table)
    (missing : g.ght_get r.table v_op ≡ 0) where
  pub retrieve-missing : (reference : Bool) → retrieve_entry r v_op reference ≡ (0, r)
  unfolding retrieve_entry
  retrieve-missing reference = rw missing

module _ ⦃g : HashTable⦄ (r : Registry g.Table) (v_op : ℕ) where
  -- Without a reference, the entry is found and nothing changes.
  pub retrieve-unreferenced : retrieve_entry r v_op false ≡ (g.ght_get r.table v_op, r)
  unfolding retrieve_entry
  retrieve-unreferenced = ground arith
