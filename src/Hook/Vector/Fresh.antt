-- ===== src/Hook/Vector/Fresh.antt =====
-- The first vnode of a vector that is not hooked.
use mac_osx_file_system_filt.Base.{ℕ, ◌≡◌, ◌≢◌, refl, All-zip, arith, false, ==_ne, ==_refl, true}
use mac_osx_file_system_filt.Hook.Entry.{
  FltVnodeHookEntry, new_entry, increment_vnode_counter, retain, release,
}
use mac_osx_file_system_filt.Hook.HashTable.{HashTable, ght_ok}
use mac_osx_file_system_filt.Hook.Located.{
  hook_all, IsOutside, hook_loop-hook_all, hook_all-slots, hook_all-outside, hook_all-counters,
}
use mac_osx_file_system_filt.Hook.Lookup.{retrieve-missing}
use mac_osx_file_system_filt.Hook.Ops.{
  hook_vector, hook_shared, increment, hook_new, hook_exclusive, hook_locked, allocate_entry,
  install_hooks, is_of_no_interest,
}
use mac_osx_file_system_filt.Hook.Registry.{
  Env, Registry, return_success, release_entry, modify_entry, add_entry, is_ok,
}
use mac_osx_file_system_filt.Hook.Vector.{IsHooked, IsLaidOut, slots}

-- The new entry when the loop starts.
abbrev pub started : FltVnodeHookEntry
started = increment (retain new_entry)

module _ ⦃g : HashTable⦄ (env : Env) (vnode v_op : ℕ) (r : Registry g.Table) where
  -- The address of the new entry.
  abbrev pub fresh : ℕ
  fresh = env.new_object r.entries

  -- The table with the new entry.
  abbrev pub grown : g.Table
  grown = (g.ght_insert r.table fresh v_op).1

  -- The new entry in the table, before the loop: counted once and referenced twice.
  abbrev pub added : Registry g.Table
  added =
      modify_entry
        (modify_entry (record (modify_entry r fresh (λ _. new_entry)) { table = grown }) fresh
          retain)
        fresh increment

  -- What the first hooking of a vector needs: no entry yet, an address for the new object, and
  -- room in the hash table.
  pub record IsFresh : Type 0 where
    pub valid : g.IsValid r.table
    pub missing : g.ght_get r.table v_op ≡ 0
    pub allocated : fresh ≢ 0
    pub inserted : (g.ght_insert r.table fresh v_op).0 ≡ ght_ok

  -- The state once the object has been allocated.
  abbrev pub made : Registry g.Table
  made = modify_entry r fresh (λ _. new_entry)

  hook_shared-missing : g.ght_get r.table v_op ≡ 0 → hook_shared r v_op ≡ (0, r)
  unfolding hook_shared
  hook_shared-missing missing = rw (retrieve-missing r missing true)

  pub hook_vector-missing :
      g.ght_get r.table v_op ≡ 0 → hook_vector env vnode v_op r ≡ hook_new env vnode v_op r
  unfolding hook_vector
  hook_vector-missing missing = rw (hook_shared-missing missing)

  pub allocate_entry-made : fresh ≢ 0 → allocate_entry env r ≡ (fresh, made)
  unfolding allocate_entry
  allocate_entry-made allocated = rw (==_ne _ _ allocated)

  pub allocate_entry-null : fresh ≡ 0 → allocate_entry env r ≡ (0, r)
  unfolding allocate_entry
  allocate_entry-null failed = rw failed

  add_entry-ok :
      (g.ght_insert r.table fresh v_op).0 ≡ ght_ok
      → add_entry made v_op fresh
        ≡ (true, modify_entry (record made { table = grown }) fresh retain)
  unfolding add_entry is_ok
  add_entry-ok inserted = rw inserted

  module _ (f : IsFresh) where
    hook_exclusive-fresh :
        hook_exclusive env vnode v_op fresh made
        ≡ (return_success, release_entry (install_hooks env vnode v_op added fresh) fresh)
    unfolding hook_exclusive hook_locked release_entry
    hook_exclusive-fresh = rw (retrieve-missing made f.missing false, add_entry-ok f.inserted)

    pub hook_vector-fresh :
        hook_vector env vnode v_op r
        ≡ (return_success, release_entry (install_hooks env vnode v_op added fresh) fresh)
    unfolding hook_new
    hook_vector-fresh =
        rw
          (
            hook_vector-missing f.missing,
            hook_new,
            allocate_entry-made f.allocated,
            ==_ne _ _ f.allocated,
          )
          hook_exclusive-fresh

    get-grown : g.ght_get grown v_op ≡ fresh
    get-grown =
        rw (g.get-insert r.table fresh v_op v_op f.valid f.allocated f.inserted, ==_refl v_op)

    module _ (interesting : is_of_no_interest env vnode ≡ false) (laid : IsLaidOut env v_op) where
      final-words :
          (release_entry (install_hooks env vnode v_op added fresh) fresh).words
          ≡ (hook_all (slots env v_op) (started, r.words)).1
      unfolding install_hooks release_entry
      final-words = rw (
        ==_refl fresh,
        hook_loop-hook_all env v_op (env.vnode_vtype vnode) _ _ _ interesting laid.wired,
      )

      final-entry :
          (release_entry (install_hooks env vnode v_op added fresh) fresh).entries fresh
          ≡ release (hook_all (slots env v_op) (started, r.words)).0
      unfolding install_hooks release_entry
      final-entry = rw (
        ==_refl fresh,
        hook_loop-hook_all env v_op (env.vnode_vtype vnode) _ _ _ interesting laid.wired,
      )

      final-table : (release_entry (install_hooks env vnode v_op added fresh) fresh).table ≡ grown
      unfolding install_hooks release_entry
      final-table = refl

      final-IsHooked :
          IsHooked env v_op r.words 1
            (release_entry (install_hooks env vnode v_op added fresh) fresh)
      unfolding release retain new_entry increment_vnode_counter
      final-IsHooked =
          let counters = hook_all-counters (slots env v_op) started r.words in
          let set = hook_all-slots (slots env v_op) started r.words laid.apart in
          record {
            found = rw (final-table, get-grown) f.allocated;
            retained = rw (final-table, get-grown, final-entry) (omega (arith, counters.0));
            counted = rw (final-table, get-grown, final-entry) (omega (arith, counters.1));
            kept =
                rw (final-table, get-grown, final-entry)
                  (All-zip (slots env v_op) (λ l both _. both.1) set set);
            hooks = rw final-words (All-zip (slots env v_op) (λ l both _. both.0) set set);
          }

      -- The first hooking of a vector: it succeeds, the vector is hooked with a count of one, and
      -- every word outside the slots and every lookup of another vector stay; the vector's entry is the
      -- new object.
      pub hook_fresh :
          ((hook_vector env vnode v_op r).0 ≡ return_success)
          × IsHooked env v_op r.words 1 (hook_vector env vnode v_op r).1
          × ((a : ℕ)
              → IsOutside a (slots env v_op)
              → (hook_vector env vnode v_op r).1.words a ≡ r.words a)
          × ((w : ℕ)
              → v_op ≢ w
              → g.ght_get (hook_vector env vnode v_op r).1.table w ≡ g.ght_get r.table w)
          × g.IsValid (hook_vector env vnode v_op r).1.table
          × (g.ght_get (hook_vector env vnode v_op r).1.table v_op ≡ fresh)
      hook_fresh = rw hook_vector-fresh (
        refl,
        final-IsHooked,
        λ a out. rw final-words (hook_all-outside (slots env v_op) started r.words a out),
        λ w other. rw (
          final-table,
          g.get-insert r.table fresh v_op w f.valid f.allocated f.inserted,
          ==_ne _ _ other,
        ),
        rw final-table (g.insert-IsValid r.table fresh v_op f.valid f.allocated),
        rw final-table get-grown,
      )
