-- ===== src/Hook/Threads/Sections.antt =====
-- The outcomes of the two sections under the exclusive lock.
use mac_osx_file_system_filt.Base.{
  ℕ, ◌≡◌, ◌≢◌, true, false, ==_ne, arith, Bool-cases, inl, inr, ◌==◌, eq_of_==, ne_of_==,
}
use mac_osx_file_system_filt.Hook.Entry.{get_vnode_counter, retain, release}
use mac_osx_file_system_filt.Hook.HashTable.{HashTable, GhtStatusCode, ght_ok}
use mac_osx_file_system_filt.Hook.Lookup.{retrieve-missing, retrieve-unreferenced}
use mac_osx_file_system_filt.Hook.Loop.{unhook_loop}
use mac_osx_file_system_filt.Hook.Ops.{increment, hook_locked, install_hooks, unhook_exclusive}
use mac_osx_file_system_filt.Hook.Registry.{
  Env, Registry, is_ok, add_entry, remove_entry, release_entry, modify_entry,
}
use mac_osx_file_system_filt.Vnop.Tables.{vop_hook_entries}

module _ ⦃g : HashTable⦄ (env : Env) where
  module _ (vnode v_op new : ℕ) (r : Registry g.Table) where
    abbrev pub grown : g.Table
    grown = (g.ght_insert r.table new v_op).1

    -- The new entry is in the table, with two references and a counter of one more.
    abbrev pub linked : Registry g.Table
    linked = modify_entry (modify_entry (record r { table = grown }) new retain) new increment

    locked-found :
        g.ght_get r.table v_op ≢ 0
        → (hook_locked env vnode v_op new r).1 ≡ modify_entry r (g.ght_get r.table v_op) increment
    unfolding hook_locked
    locked-found found = rw (retrieve-unreferenced r v_op, ==_ne _ _ found)

    locked-failed :
        g.ght_get r.table v_op ≡ 0
        → is_ok (g.ght_insert r.table new v_op).0 ≡ false
        → (hook_locked env vnode v_op new r).1 ≡ record r { table = grown }
    unfolding hook_locked add_entry
    locked-failed missing bad = rw (retrieve-missing r missing false, add_entry, bad)

    locked-added :
        g.ght_get r.table v_op ≡ 0
        → is_ok (g.ght_insert r.table new v_op).0 ≡ true
        → (hook_locked env vnode v_op new r).1 ≡ install_hooks env vnode v_op linked new
    unfolding hook_locked add_entry
    locked-added missing good = rw (retrieve-missing r missing false, add_entry, good)

    -- The section of FltHookVnodeVop: the vector has an entry, which is counted; or it has none,
    -- and the table refuses the new one; or the new one is added, and the hooks are installed.
    pub data Locked : Type 0 where
      found :
          g.ght_get r.table v_op ≢ 0
          → (hook_locked env vnode v_op new r).1 ≡ modify_entry r (g.ght_get r.table v_op) increment
          → Locked
      failed :
          (g.ght_insert r.table new v_op).0 ≢ ght_ok
          → (hook_locked env vnode v_op new r).1 ≡ record r { table = grown }
          → Locked
      added :
          g.ght_get r.table v_op ≡ 0
          → (g.ght_insert r.table new v_op).0 ≡ ght_ok
          → (hook_locked env vnode v_op new r).1 ≡ install_hooks env vnode v_op linked new
          → Locked

    ne_of_is_ok : (c : GhtStatusCode) → is_ok c ≡ false → c ≢ ght_ok
    unfolding is_ok
    ne_of_is_ok c h = ground (arith, h)

    eq_of_is_ok : (c : GhtStatusCode) → is_ok c ≡ true → c ≡ ght_ok
    unfolding is_ok
    eq_of_is_ok c h = ground (arith, h)

    pub hook_locked-Locked : Locked
    hook_locked-Locked = elim (Bool-cases (g.ght_get r.table v_op == 0)) [
      | inr some ↦ let f = ne_of_== _ _ some in found f (locked-found f)
      | inl null ↦
          let m = eq_of_== _ _ null in
          elim (Bool-cases (is_ok (g.ght_insert r.table new v_op).0)) [
            | inl good ↦ added m (eq_of_is_ok _ good) (locked-added m good)
            | inr bad ↦ failed (ne_of_is_ok _ bad) (locked-failed m bad)
          ]
    ]

  module _ (v_op e : ℕ) (r : Registry g.Table) where
    abbrev pub shrunk : g.Table
    shrunk = (g.ght_remove r.table v_op).1

    -- The thread's reference is given back, and the vector's entry is out of the table.
    abbrev pub unlinked : Registry g.Table
    unlinked = record (modify_entry r e release) { table = shrunk }

    -- The section of FltUnHookVnodeVop: the entry has been counted anew, and is left to release;
    -- or the vector has no entry any more; or its entry is taken out, and the words restored.
    pub data Unlocked : Type 0 where
      recounted : unhook_exclusive env v_op e r ≡ (e, r) → Unlocked
      gone : g.ght_get r.table v_op ≡ 0 → unhook_exclusive env v_op e r ≡ (0, unlinked) → Unlocked
      removed :
          g.ght_get r.table v_op ≢ 0
          → unhook_exclusive env v_op e r ≡ (
            g.ght_get r.table v_op,
            record unlinked {
              words =
                  unhook_loop env v_op
                    (unlinked.entries (g.ght_get r.table v_op))
                    vop_hook_entries
                    r.words;
            },
          )
          → Unlocked

    pub unhook_exclusive-Unlocked : g.IsValid r.table → Unlocked
    unfolding unhook_exclusive remove_entry release_entry
    unhook_exclusive-Unlocked valid = elim (Bool-cases (get_vnode_counter (r.entries e) == 0)) [
      | inr more ↦ recounted (rw more)
      | inl zero ↦ elim (Bool-cases (g.ght_get r.table v_op == 0)) [
        | inl null ↦
            let m = eq_of_== _ _ null in gone m (rw (zero, g.remove-get r.table v_op valid, m))
        | inr some ↦ removed (ne_of_== _ _ some) (rw (zero, g.remove-get r.table v_op valid, some))
      ]
    ]
