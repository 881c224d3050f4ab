-- ===== src/Hook/Threads/Private.antt =====
-- What one step of a thread leaves alone: the well-formed table, and the new entry that another
-- thread, or the thread itself, has not added yet.
use mac_osx_file_system_filt.Base.{
  ℕ, ◌≡◌, ◌≢◌, refl, sym, ◌∙◌, ap, true, Bool-cases, inl, inr, ◌==◌, arith, ==_ne, ne_of_==,
}
use mac_osx_file_system_filt.Hook.Entry.{FltVnodeHookEntry, new_entry, retain, release}
use mac_osx_file_system_filt.Hook.HashTable.{HashTable}
use mac_osx_file_system_filt.Hook.Ops.{
  increment, decrement, allocate_entry, install_hooks, hook_locked, unhook_exclusive,
  original_from_entry,
}
use mac_osx_file_system_filt.Hook.Registry.{
  Env, Registry, modify_entry, release_entry, retrieve_entry, get_vnode_op_vector,
}
use mac_osx_file_system_filt.Hook.Threads.{
  Pc, hook_starts, hook_counts, hook_allocates, hook_waits, hook_installs, unhook_starts,
  unhook_counts, unhook_waits, unhook_restores, lookup_starts, lookup_repeats, lookup_reads,
  releases, returned, answered, advance,
}
use mac_osx_file_system_filt.Hook.Threads.Counting.{references}
use mac_osx_file_system_filt.Hook.Threads.Held.{held, IsPrivate, Own, retrieve-table}
use mac_osx_file_system_filt.Hook.Threads.Sections.{
  hook_locked-Locked, found, failed, added, unhook_exclusive-Unlocked, recounted, gone, removed,
}

module _ ⦃g : HashTable⦄ where
  -- The entry at `a` is as it was, and still no datum of the table.
  pub record IsUntouched (r s : Registry g.Table) (a : ℕ) : Type 0 where
    pub same : s.entries a ≡ r.entries a
    pub outside : (j : ℕ) → g.ght_get s.table j ≢ a

  module _ (r : Registry g.Table) (a : ℕ) (named : a ≢ 0)
      (out : (j : ℕ) → g.ght_get r.table j ≢ a) where
    -- A change of another entry.
    modify-IsUntouched :
        (e : ℕ) (f : FltVnodeHookEntry → FltVnodeHookEntry)
        → e ≢ a
        → IsUntouched r (modify_entry r e f) a
    modify-IsUntouched e f other = record { same = rw (==_ne e a other) refl; outside = out }

    retrieve-IsUntouched : (v_op : ℕ) → IsUntouched r (retrieve_entry r v_op true).1 a
    unfolding retrieve_entry
    retrieve-IsUntouched v_op = elim (Bool-cases (g.ght_get r.table v_op == 0)) [
      | inl null ↦ rw null (record { same = refl; outside = out })
      | inr some ↦ rw some (modify-IsUntouched (g.ght_get r.table v_op) retain (out v_op))
    ]

    allocate-IsUntouched :
        (env : Env)
        → (env.new_object r.entries ≢ 0 → references r (env.new_object r.entries) ≡ 0)
        → references r a ≢ 0
        → IsUntouched r (allocate_entry env r).1 a
    unfolding allocate_entry
    allocate-IsUntouched env fresh live = elim (Bool-cases (env.new_object r.entries == 0)) [
      | inl null ↦ rw null (record { same = refl; outside = out })
      | inr some ↦ rw some (
          modify-IsUntouched (env.new_object r.entries) (λ _. new_entry)
            (λ e. live (ap (references r) (sym e) ∙ fresh (ne_of_== _ _ some))))
    ]

    locked-IsUntouched :
        (env : Env) (vnode v_op new : ℕ)
        → g.IsValid r.table
        → IsPrivate r new
        → new ≢ a
        → IsUntouched r (hook_locked env vnode v_op new r).1 a
    unfolding install_hooks
    locked-IsUntouched env vnode v_op new valid own other =
        elim (hook_locked-Locked env vnode v_op new r) [
          | found some e ↦ rw e (modify-IsUntouched (g.ght_get r.table v_op) increment (out v_op))
          | failed bad e ↦ rw e (record {
            same = refl;
            outside = λ j q. out j (sym (g.get-insert_failed r.table new v_op j valid bad) ∙ q);
          })
          | added missing good e ↦ rw e (record {
            same = rw (==_ne new a other) refl;
            outside = λ j q.
                ground
                  (arith, g.get-insert r.table new v_op j valid own.some good, q, other, out j);
          })
        ]

    exclusive-IsUntouched :
        (env : Env) (v_op e : ℕ)
        → g.IsValid r.table
        → e ≢ a
        → IsUntouched r (unhook_exclusive env v_op e r).1 a
    exclusive-IsUntouched env v_op e valid other =
        let get = λ (j : ℕ). g.get-remove r.table v_op j valid in
        elim (unhook_exclusive-Unlocked env v_op e r valid) [
          | recounted q ↦ rw q (record { same = refl; outside = out })
          | gone null q ↦ rw q (record {
            same = rw (==_ne e a other) refl;
            outside = λ j p. ground (arith, get j, out j, p, named);
          })
          | removed some q ↦ rw q (record {
            same = rw (==_ne e a other) refl;
            outside = λ j p. ground (arith, get j, out j, p, named);
          })
        ]

    -- A live entry that no key leads to and that the thread does not hold.
    pub advance-IsUntouched :
        (env : Env) (p : Pc)
        → (env.new_object r.entries ≢ 0 → references r (env.new_object r.entries) ≡ 0)
        → g.IsValid r.table
        → Own r p
        → references r a ≢ 0
        → held p ≢ a
        → IsUntouched r (advance env p r).1 a
    unfolding advance original_from_entry release_entry
    advance-IsUntouched env (hook_starts vnode v_op) fresh valid own live other =
        retrieve-IsUntouched v_op
    advance-IsUntouched env (hook_counts e) fresh valid own live other =
        modify-IsUntouched e increment other
    advance-IsUntouched env (hook_allocates vnode v_op) fresh valid own live other =
        allocate-IsUntouched env fresh live
    advance-IsUntouched env (hook_waits vnode v_op new) fresh valid own live other = record {
      same = refl;
      outside = out;
    }
    advance-IsUntouched env (hook_installs vnode v_op new) fresh valid own live other =
        locked-IsUntouched env vnode v_op new valid own other
    advance-IsUntouched env (unhook_starts v_op) fresh valid own live other =
        retrieve-IsUntouched v_op
    advance-IsUntouched env (unhook_counts v_op e) fresh valid own live other =
        modify-IsUntouched e decrement other
    advance-IsUntouched env (unhook_waits v_op e) fresh valid own live other = record {
      same = refl;
      outside = out;
    }
    advance-IsUntouched env (unhook_restores v_op e) fresh valid own live other =
        exclusive-IsUntouched env v_op e valid other
    advance-IsUntouched env (lookup_starts vnode indx) fresh valid own live other =
        retrieve-IsUntouched (get_vnode_op_vector env vnode)
    advance-IsUntouched env (lookup_repeats vnode indx) fresh valid own live other =
        elim (Bool-cases ((retrieve_entry r (get_vnode_op_vector env vnode) true).0 == 0)) [
          | inl null ↦ rw null (retrieve-IsUntouched (get_vnode_op_vector env vnode))
          | inr got ↦ rw got (retrieve-IsUntouched (get_vnode_op_vector env vnode))
        ]
    advance-IsUntouched env (lookup_reads vnode e indx) fresh valid own live other =
        modify-IsUntouched e release other
    advance-IsUntouched env (releases e) fresh valid own live other =
        modify-IsUntouched e release other
    advance-IsUntouched env returned fresh valid own live other = record {
      same = refl;
      outside = out;
    }
    advance-IsUntouched env (answered vnode indx f) fresh valid own live other = record {
      same = refl;
      outside = out;
    }

  -- The table stays well formed.
  pub advance-IsValid :
      (env : Env) (p : Pc) (r : Registry g.Table)
      → g.IsValid r.table
      → Own r p
      → g.IsValid (advance env p r).1.table
  unfolding advance original_from_entry release_entry
  advance-IsValid env (hook_starts vnode v_op) r valid own = rw (retrieve-table r v_op true) valid
  advance-IsValid env (hook_counts e) r valid own = valid
  advance-IsValid env (hook_allocates vnode v_op) r valid own =
      unfold allocate_entry in ground (arith, valid)
  advance-IsValid env (hook_waits vnode v_op new) r valid own = valid
  advance-IsValid env (hook_installs vnode v_op new) r valid own =
      unfold install_hooks in
      elim (hook_locked-Locked env vnode v_op new r) [
        | found some e ↦ rw e valid
        | failed bad e ↦ rw e (g.insert-IsValid r.table new v_op valid own.some)
        | added missing good e ↦ rw e (g.insert-IsValid r.table new v_op valid own.some)
      ]
  advance-IsValid env (unhook_starts v_op) r valid own = rw (retrieve-table r v_op true) valid
  advance-IsValid env (unhook_counts v_op e) r valid own = valid
  advance-IsValid env (unhook_waits v_op e) r valid own = valid
  advance-IsValid env (unhook_restores v_op e) r valid own =
      elim (unhook_exclusive-Unlocked env v_op e r valid) [
        | recounted q ↦ rw q valid
        | gone null q ↦ rw q (g.remove-IsValid r.table v_op valid)
        | removed some q ↦ rw q (g.remove-IsValid r.table v_op valid)
      ]
  advance-IsValid env (lookup_starts vnode indx) r valid own =
      rw (retrieve-table r (get_vnode_op_vector env vnode) true) valid
  advance-IsValid env (lookup_repeats vnode indx) r valid own =
      let v_op = get_vnode_op_vector env vnode in
      elim (Bool-cases ((retrieve_entry r v_op true).0 == 0)) [
        | inl null ↦ rw (null, retrieve-table r v_op true) valid
        | inr got ↦ rw (got, retrieve-table r v_op true) valid
      ]
  advance-IsValid env (lookup_reads vnode e indx) r valid own = valid
  advance-IsValid env (releases e) r valid own = valid
  advance-IsValid env returned r valid own = valid
  advance-IsValid env (answered vnode indx f) r valid own = valid
