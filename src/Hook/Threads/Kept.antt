-- ===== src/Hook/Threads/Kept.antt =====
-- What one step of a thread does to the originals that an entry keeps, and to the words of a
-- vector.
use mac_osx_file_system_filt.Base.{
  ℕ, ◌≡◌, ◌≢◌, refl, sym, ◌∙◌, ap, true, Bool-cases, inl, inr, ◌==◌, update, arith, ==_ne, ne_of_==,
}
use mac_osx_file_system_filt.Hook.Entry.{
  FltVnodeHookEntry, new_entry, retain, release, increment_vnode_counter, decrement_vnode_counter,
}
use mac_osx_file_system_filt.Hook.HashTable.{HashTable}
use mac_osx_file_system_filt.Hook.Ops.{
  increment, decrement, allocate_entry, install_hooks, original_from_entry,
}
use mac_osx_file_system_filt.Hook.Registry.{
  Env, Registry, modify_entry, retrieve_entry, release_entry, get_vnode_op_vector,
}
use mac_osx_file_system_filt.Hook.Threads.{
  Pc, hook_starts, hook_counts, hook_allocates, hook_waits, hook_installs, unhook_starts,
  unhook_counts, unhook_waits, unhook_restores, lookup_starts, lookup_repeats, lookup_reads,
  releases, returned, answered, advance,
}
use mac_osx_file_system_filt.Hook.Threads.Sections.{
  grown, linked, hook_locked-Locked, found, failed, added, unhook_exclusive-Unlocked, recounted,
  gone, removed,
}
use mac_osx_file_system_filt.Hook.Threads.Counting.{references}
use mac_osx_file_system_filt.Hook.Threads.Sound.{IsAllocator}
use mac_osx_file_system_filt.Vnop.Tables.{VopFunc}
use mac_osx_file_system_filt.Vnop.VopEnum.{FltVopEnum}

-- The entry in which a thread is going to keep originals, or 0.
abbrev pub fills : Pc → ℕ
fills (hook_installs vnode v_op new) = new
fills _ = 0

abbrev pub originals : {T : Type 0} → Registry T → ℕ → FltVopEnum → VopFunc
originals r e = (r.entries e).orig_vop

module _ {T : Type 0} (r : Registry T) (a e : ℕ) where
  modify-originals :
      (x : FltVnodeHookEntry)
      → a ≢ e
      → originals (record r { entries = update r.entries a x }) e ≡ originals r e
  modify-originals x other = rw (originals, ==_ne a e other) refl

  retain-originals : originals (modify_entry r a retain) e ≡ originals r e
  unfolding retain
  retain-originals = ground arith

  pub release-originals : originals (modify_entry r a release) e ≡ originals r e
  unfolding release
  release-originals = ground arith

  pub increment-originals : originals (modify_entry r a increment) e ≡ originals r e
  unfolding increment_vnode_counter
  increment-originals = ground arith

  decrement-originals : originals (modify_entry r a decrement) e ≡ originals r e
  unfolding decrement_vnode_counter
  decrement-originals = ground arith

module _ ⦃g : HashTable⦄ where
  pub retrieve-originals :
      (r : Registry g.Table) (v_op e : ℕ)
      → originals (retrieve_entry r v_op true).1 e ≡ originals r e
  unfolding retrieve_entry
  retrieve-originals r v_op e = elim (Bool-cases (g.ght_get r.table v_op == 0)) [
    | inl null ↦ rw null refl
    | inr some ↦ rw some (retain-originals r (g.ght_get r.table v_op) e)
  ]

  -- Another entry than the one that is added.
  pub added-originals :
      (env : Env) (vnode v_op new : ℕ) (r : Registry g.Table) (e : ℕ)
      → new ≢ e
      → originals (install_hooks env vnode v_op (linked env vnode v_op new r) new) e ≡ originals r e
  unfolding install_hooks
  added-originals env vnode v_op new r e other =
      let grew = record r { table = grown env vnode v_op new r } in
      modify-originals (linked env vnode v_op new r) new e _ other
      ∙ increment-originals (modify_entry grew new retain) new e
      ∙ retain-originals grew new e

  -- A live entry that the thread is not about to fill keeps its originals.
  pub advance-originals :
      (env : Env) (p : Pc) (r : Registry g.Table) (e : ℕ)
      → IsAllocator env
      → g.IsValid r.table
      → references r e ≢ 0
      → fills p ≢ e
      → originals (advance env p r).1 e ≡ originals r e
  unfolding advance allocate_entry original_from_entry release_entry install_hooks
  advance-originals env (hook_starts vnode v_op) r e alloc valid live other =
      retrieve-originals r v_op e
  advance-originals env (hook_counts x) r e alloc valid live other = increment-originals r x e
  advance-originals env (hook_allocates vnode v_op) r e alloc valid live other =
      elim (Bool-cases (env.new_object r.entries == 0)) [
        | inl null ↦ rw null refl
        | inr some ↦ rw some (
            modify-originals r (env.new_object r.entries) e new_entry
              (λ q. live (ap (references r) (sym q) ∙ alloc r.entries (ne_of_== _ _ some))))
      ]
  advance-originals env (hook_waits vnode v_op new) r e alloc valid live other = refl
  advance-originals env (hook_installs vnode v_op new) r e alloc valid live other =
      elim (hook_locked-Locked env vnode v_op new r) [
        | found some q ↦ rw q (increment-originals r (g.ght_get r.table v_op) e)
        | failed bad q ↦ rw q refl
        | added missing good q ↦ rw q (added-originals env vnode v_op new r e other)
      ]
  advance-originals env (unhook_starts v_op) r e alloc valid live other =
      retrieve-originals r v_op e
  advance-originals env (unhook_counts v_op x) r e alloc valid live other =
      decrement-originals r x e
  advance-originals env (unhook_waits v_op x) r e alloc valid live other = refl
  advance-originals env (unhook_restores v_op x) r e alloc valid live other =
      elim (unhook_exclusive-Unlocked env v_op x r valid) [
        | recounted q ↦ rw q refl
        | gone null q ↦ rw q (release-originals r x e)
        | removed some q ↦ rw q (release-originals r x e)
      ]
  advance-originals env (lookup_starts vnode indx) r e alloc valid live other =
      retrieve-originals r (get_vnode_op_vector env vnode) e
  advance-originals env (lookup_repeats vnode indx) r e alloc valid live other =
      let v_op = get_vnode_op_vector env vnode in
      elim (Bool-cases ((retrieve_entry r v_op true).0 == 0)) [
        | inl null ↦ rw null (retrieve-originals r v_op e)
        | inr got ↦ rw got (retrieve-originals r v_op e)
      ]
  advance-originals env (lookup_reads vnode x indx) r e alloc valid live other =
      release-originals r x e
  advance-originals env (releases x) r e alloc valid live other = release-originals r x e
  advance-originals env returned r e alloc valid live other = refl
  advance-originals env (answered vnode indx f) r e alloc valid live other = refl
