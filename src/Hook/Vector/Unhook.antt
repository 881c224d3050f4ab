-- ===== src/Hook/Vector/Unhook.antt =====
-- FltUnHookVnodeVop behind its guards, on a hooked vector: it counts down, or restores the vector.
use mac_osx_file_system_filt.Base.{
  ℕ, ◌+◌, ◌-◌, ◌%◌, ◌^◌, ◌<◌, ◌≡◌, ◌≢◌, refl, sym, ◌∙◌, All, All-zip, arith, ◌==◌, ==_ne, ==_refl,
  if◌then◌else◌,
}
use mac_osx_file_system_filt.Hook.Entry.{
  decrement_vnode_counter, get_vnode_counter, retain, release, is_hooked_of_ne,
}
use mac_osx_file_system_filt.Hook.HashTable.{HashTable}
use mac_osx_file_system_filt.Hook.Located.{
  unhook_all, IsOutside, unhook_loop-unhook_all, unhook_all-slots, unhook_all-outside,
}
use mac_osx_file_system_filt.Hook.Lookup.{retrieve-found}
use mac_osx_file_system_filt.Hook.Loop.{unhook_loop}
use mac_osx_file_system_filt.Hook.Ops.{
  decrement, unhook_vector, unhook_entry, unhook_exclusive, release_if,
}
use mac_osx_file_system_filt.Hook.Registry.{
  Env, Registry, release_entry, modify_entry, remove_entry,
}
use mac_osx_file_system_filt.Hook.Vector.{IsHooked, IsLaidOut, slots}
use mac_osx_file_system_filt.Vnop.Tables.{VopFunc, vop_not_hooked, vop_hook_entries}

module _ ⦃g : HashTable⦄ {env : Env} {v_op : ℕ} {before : ℕ → VopFunc} {n : ℕ}
    {r : Registry g.Table} (h : IsHooked env v_op before n r) where
  abbrev e : ℕ
  e = g.ght_get r.table v_op

  -- The entry is referenced and its count is one less.
  abbrev lowered : Registry g.Table
  lowered = modify_entry (modify_entry r e retain) e decrement

  lowered-counter : (lowered.entries e).v_node_counter ≡ (n + (2 ^ 32 - 1)) % 2 ^ 32
  unfolding decrement_vnode_counter retain
  lowered-counter = rw (==_refl e, h.counted)

  count_before : (decrement_vnode_counter ((modify_entry r e retain).entries e)).0 ≡ n
  unfolding decrement_vnode_counter retain
  count_before = rw (==_refl e, h.counted)

  unhook_vector-more : n ≢ 1 → unhook_vector env v_op r ≡ release_entry lowered e
  unfolding unhook_vector unhook_entry
  unhook_vector-more more =
      rw (retrieve-found r h.found, ==_ne _ _ h.found, count_before, ==_ne n 1 more)

  unhook_vector-one :
      n ≡ 1 → unhook_vector env v_op r ≡ release_if (unhook_exclusive env v_op e lowered)
  unfolding unhook_vector unhook_entry
  unhook_vector-one last = rw (retrieve-found r h.found, ==_ne _ _ h.found, count_before, last)

  -- Unhooking one of several vnodes lowers the count and leaves every word.
  pub unhook_one_of_many :
      n ≢ 1
      → 0 < n
      → n < 2 ^ 32
      → ((unhook_vector env v_op r).words ≡ r.words)
        × ((unhook_vector env v_op r).table ≡ r.table)
        × IsHooked env v_op before (n - 1) (unhook_vector env v_op r)
  unfolding release_entry release decrement_vnode_counter retain
  unhook_one_of_many more pos small = rw (unhook_vector-more more) (
    refl,
    refl,
    record {
      found = h.found;
      retained = rw (==_refl e) (omega (arith, h.retained));
      counted = rw (==_refl e) (omega (arith, h.counted));
      kept = rw (==_refl e) h.kept;
      hooks = h.hooks;
    },
  )

  -- The state in which the restoring loop runs.
  abbrev dropped : Registry g.Table
  dropped = record (release_entry lowered e) { table = (g.ght_remove r.table v_op).1 }

  unhook_exclusive-one :
      g.IsValid r.table
      → n ≡ 1
      → unhook_exclusive env v_op e lowered ≡ (
        e,
        record dropped {
          words = unhook_loop env v_op (dropped.entries e) vop_hook_entries r.words;
        },
      )
  unfolding unhook_exclusive get_vnode_counter remove_entry release_entry
  unhook_exclusive-one valid last =
      let zeroed : (lowered.entries e).v_node_counter ≡ 0 = omega (arith, lowered-counter) in
      rw (zeroed, g.remove-get r.table v_op valid, ==_ne _ _ h.found)

  dropped-kept : All (λ l. (dropped.entries e).orig_vop l.indx ≡ before l.address) (slots env v_op)
  unfolding release_entry release decrement_vnode_counter retain
  dropped-kept = rw (==_refl e) h.kept

  restored :
      IsLaidOut env v_op
      → All (λ l. before l.address ≢ vop_not_hooked) (slots env v_op)
      → unhook_loop env v_op (dropped.entries e) vop_hook_entries r.words
        ≡ unhook_all (dropped.entries e) (slots env v_op) r.words
  restored laid plain =
      unhook_loop-unhook_all env v_op (dropped.entries e) vop_hook_entries r.words laid.wired (
        All-zip (slots env v_op)
          (λ l kept ne. is_hooked_of_ne (dropped.entries e) l.indx (λ p. ne (sym kept ∙ p)))
          dropped-kept plain)

  -- Unhooking the last vnode: the original functions are back in their slots, no other word
  -- changes, the vector is no longer in the table, and the entry has lost its last reference.
  pub unhook_last :
      g.IsValid r.table
      → IsLaidOut env v_op
      → All (λ l. before l.address ≢ vop_not_hooked) (slots env v_op)
      → n ≡ 1
      → All (λ l. (unhook_vector env v_op r).words l.address ≡ before l.address) (slots env v_op)
        × ((a : ℕ) → IsOutside a (slots env v_op) → (unhook_vector env v_op r).words a ≡ r.words a)
        × ((w : ℕ)
            → g.ght_get (unhook_vector env v_op r).table w
              ≡ (if v_op == w then 0 else g.ght_get r.table w))
        × (((unhook_vector env v_op r).entries e).retain_count ≡ 0)
        × g.IsValid (unhook_vector env v_op r).table
  unfolding release_if release_entry release retain decrement_vnode_counter
  unhook_last valid laid plain last =
      rw
        (
          unhook_vector-one last,
          unhook_exclusive-one valid last,
          ==_ne _ _ h.found,
          restored laid plain,
        )
        (
          unhook_all-slots (slots env v_op) (dropped.entries e) r.words before laid.apart
              dropped-kept,
          λ a out. unhook_all-outside (slots env v_op) (dropped.entries e) r.words a out,
          λ w. g.get-remove r.table v_op w valid,
          rw (==_refl e) (omega (arith, h.retained)),
          g.remove-IsValid r.table v_op valid,
        )
