-- ===== src/Hook/Threads/Exchange.antt =====
-- A step of a thread exchanges what the thread holds, and the counts go with it.
use mac_osx_file_system_filt.Base.{
  ℕ, ◌+◌, ◌-◌, ◌≡◌, ◌≢◌, refl, ◌∙◌, ap, true, Bool-cases, inl, inr, ◌==◌, arith, eq_of_==,
}
use mac_osx_file_system_filt.Hook.Entry.{new_entry, retain, decrement_vnode_counter}
use mac_osx_file_system_filt.Hook.HashTable.{HashTable}
use mac_osx_file_system_filt.Vnop.Tables.{vop_hook_entries}
use mac_osx_file_system_filt.Hook.Ops.{
  decrement, allocate_entry, install_hooks, hook_locked, unhook_exclusive, original_from_entry,
}
use mac_osx_file_system_filt.Hook.Registry.{
  Env, Registry, modify_entry, release_entry, retrieve_entry, get_vnode_op_vector,
}
use mac_osx_file_system_filt.Hook.Threads.{
  Pc, hook_starts, hook_counts, hook_allocates, hook_waits, hook_installs, unhook_starts,
  unhook_counts, unhook_waits, unhook_restores, lookup_starts, lookup_repeats, lookup_reads,
  releases, returned, answered, advance,
}
use mac_osx_file_system_filt.Hook.Threads.Sections.{
  grown, linked, hook_locked-Locked, found, failed, added, unhook_exclusive-Unlocked, recounted,
  gone, removed,
}
use mac_osx_file_system_filt.Hook.Threads.Loops.{hook_loop-counters}
use mac_osx_file_system_filt.Hook.Threads.Counting.{
  one, references, retain-references, release-references, increment-references,
  decrement-references, Stored-ge, Stored-insert, Stored-remove, Stored-same,
}
use mac_osx_file_system_filt.Hook.Threads.Held.{
  held, Counted, IsPrivate, Own, held-if, Counted-same, if-missing, unheld, retrieve-Counted,
}

module _ ⦃g : HashTable⦄ where
  module _ (env : Env) (vnode v_op new : ℕ) where
    install_hooks-references :
        (r : Registry g.Table) (a : ℕ)
        → references (install_hooks env vnode v_op r new) a ≡ references r a
    unfolding install_hooks
    install_hooks-references r a =
        let loop =
          hook_loop-counters env v_op (env.vnode_vtype vnode) vop_hook_entries (r.entries new)
            r.words in
        elim (Bool-cases (new == a)) [
          | inl hit ↦ rw (references, hit) (loop.0 ∙ ap (references r) (eq_of_== new a hit))
          | inr miss ↦ rw (references, miss) refl
        ]

  module _ (env : Env) (vnode v_op new : ℕ) (r : Registry g.Table) (a o : ℕ) where
    linked-references : references (linked env vnode v_op new r) a ≡ references r a + one new a
    linked-references =
        let grew = record r { table = grown env vnode v_op new r } in
        increment-references (modify_entry grew new retain) new a ∙ retain-references grew new a

    -- A refused new entry is still in nobody else's hands; an added one is the table's, too.
    locked-Counted :
        g.IsValid r.table
        → IsPrivate r new
        → a ≢ 0
        → Counted r a (one new a + o)
        → Counted (hook_locked env vnode v_op new r).1 a (one new a + o)
    unfolding install_hooks
    locked-Counted valid own named old = elim (hook_locked-Locked env vnode v_op new r) [
      | found some e ↦ rw e (
          Counted-same r _ a _ _ refl
            (omega (arith, increment-references r (g.ght_get r.table v_op) a)) old)
      | failed bad e ↦ rw e (record {
        kept = old.kept;
        stored =
            Stored-same r.table _ a (λ j. g.get-insert_failed r.table new v_op j valid bad)
              old.stored;
        counted = old.counted;
      })
      | added missing good e ↦ rw e (record {
        kept = old.kept + one new a;
        stored =
            Stored-insert r.table _ new v_op a
              (λ j. g.get-insert r.table new v_op j valid own.some good) missing own.outside named
              old.stored;
        counted = omega (
          arith,
          install_hooks-references env vnode v_op new (linked env vnode v_op new r) a,
          linked-references,
          old.counted,
        );
      })
    ]

  exclusive-Counted :
      (env : Env) (v_op e : ℕ) (r : Registry g.Table) (a o : ℕ)
      → g.IsValid r.table
      → a ≢ 0
      → Counted r a (one e a + o)
      → let (left, s) = unhook_exclusive env v_op e r in Counted s a (one left a + o)
  exclusive-Counted env v_op e r a o valid named old =
      elim (unhook_exclusive-Unlocked env v_op e r valid) [
        | recounted q ↦ rw q old
        | gone null q ↦ rw q (record {
          kept = old.kept;
          stored =
              Stored-same r.table _ a
                (λ j. g.get-remove r.table v_op j valid ∙ if-missing r.table v_op j null)
                old.stored;
          counted = ground (arith, release-references r e a, old.counted);
        })
        | removed some q ↦ rw q (record {
          kept = old.kept - one (g.ght_get r.table v_op) a;
          stored =
              Stored-remove r.table _ v_op a (λ j. g.get-remove r.table v_op j valid) named
                old.stored;
          counted =
              omega
                (arith, release-references r e a, old.counted, Stored-ge r.table v_op a old.stored);
        })
      ]

  allocate-Counted :
      (env : Env) (r : Registry g.Table) (a o : ℕ)
      → (env.new_object r.entries ≢ 0 → references r (env.new_object r.entries) ≡ 0)
      → a ≢ 0
      → Counted r a o
      → let (new, s) = allocate_entry env r in Counted s a (one new a + o)
  unfolding allocate_entry
  allocate-Counted env r a o fresh named old = elim (Bool-cases (env.new_object r.entries == 0)) [
    | inl null ↦
        rw null
          (record { kept = old.kept; stored = old.stored; counted = ground (arith, old.counted) })
    | inr got ↦ rw got (record {
      kept = old.kept;
      stored = old.stored;
      counted = unfold new_entry in ground (arith, old.counted, fresh);
    })
  ]

  -- A thread's step changes what is held by that thread, and the count goes with it.
  pub advance-Counted :
      (env : Env) (p : Pc) (r : Registry g.Table) (a o : ℕ)
      → (env.new_object r.entries ≢ 0 → references r (env.new_object r.entries) ≡ 0)
      → g.IsValid r.table
      → Own r p
      → a ≢ 0
      → Counted r a (one (held p) a + o)
      → Counted (advance env p r).1 a (one (held (advance env p r).0) a + o)
  unfolding advance original_from_entry release_entry
  advance-Counted env (hook_starts vnode v_op) r a o fresh valid own named old =
      rw
        (held-if (retrieve_entry r v_op true).0 a (hook_allocates vnode v_op)
          (hook_counts (retrieve_entry r v_op true).0) refl refl)
        (retrieve-Counted r v_op a o named old)
  advance-Counted env (hook_counts e) r a o fresh valid own named old =
      Counted-same r _ a _ _ refl (omega (arith, increment-references r e a)) old
  advance-Counted env (hook_allocates vnode v_op) r a o fresh valid own named old =
      rw
        (held-if (allocate_entry env r).0 a returned
          (hook_waits vnode v_op (allocate_entry env r).0) refl refl)
        (allocate-Counted env r a o fresh named (unheld r a o named old))
  advance-Counted env (hook_waits vnode v_op new) r a o fresh valid own named old = old
  advance-Counted env (hook_installs vnode v_op new) r a o fresh valid own named old =
      locked-Counted env vnode v_op new r a o valid own named old
  advance-Counted env (unhook_starts v_op) r a o fresh valid own named old =
      rw
        (held-if (retrieve_entry r v_op true).0 a (returned)
          (unhook_counts v_op (retrieve_entry r v_op true).0) refl refl)
        (retrieve-Counted r v_op a o named old)
  advance-Counted env (unhook_counts v_op e) r a o fresh valid own named old =
      let go =
        Counted-same r (modify_entry r e decrement) a _ (one e a + o) refl
          (omega (arith, decrement-references r e a)) old in
      elim (Bool-cases ((decrement_vnode_counter (r.entries e)).0 == 1)) [
        | inl last ↦ rw last go
        | inr more ↦ rw more go
      ]
  advance-Counted env (unhook_waits v_op e) r a o fresh valid own named old = old
  advance-Counted env (unhook_restores v_op e) r a o fresh valid own named old =
      rw
        (held-if (unhook_exclusive env v_op e r).0 a returned
          (releases (unhook_exclusive env v_op e r).0) refl refl)
        (exclusive-Counted env v_op e r a o valid named old)
  advance-Counted env (lookup_starts vnode indx) r a o fresh valid own named old =
      let v_op = get_vnode_op_vector env vnode in
      let e = (retrieve_entry r v_op true).0 in
      rw (held-if e a (lookup_repeats vnode indx) (lookup_reads vnode e indx) refl refl)
        (retrieve-Counted r v_op a o named old)
  advance-Counted env (lookup_repeats vnode indx) r a o fresh valid own named old =
      let v_op = get_vnode_op_vector env vnode in
      let (e, r') = retrieve_entry r v_op true in
      let next = retrieve-Counted r v_op a o named old in
      elim (Bool-cases (e == 0)) [
        | inl null ↦ rw null (rw (eq_of_== e 0 null) at next)
        | inr got ↦ rw got next
      ]
  advance-Counted env (lookup_reads vnode e indx) r a o fresh valid own named old =
      Counted-same r _ a _ _ refl (ground (arith, release-references r e a, old.counted)) old
  advance-Counted env (releases e) r a o fresh valid own named old =
      Counted-same r _ a _ _ refl (ground (arith, release-references r e a, old.counted)) old
  advance-Counted env returned r a o fresh valid own named old = old
  advance-Counted env (answered vnode indx f) r a o fresh valid own named old = old
