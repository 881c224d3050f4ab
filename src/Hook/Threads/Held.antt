-- ===== src/Hook/Threads/Held.antt =====
-- What one step of a thread does to the references that are held to an entry.
use mac_osx_file_system_filt.Base.{
  ℕ, ◌+◌, ◌≡◌, ◌≢◌, Bool, true, Bool-cases, inl, inr, if◌then◌else◌, ◌==◌, arith, eq_of_==,
}
use mac_osx_file_system_filt.Hook.Entry.{retain}
use mac_osx_file_system_filt.Hook.HashTable.{HashTable}
use mac_osx_file_system_filt.Hook.Registry.{Registry, retrieve_entry}
use mac_osx_file_system_filt.Hook.Threads.{
  Pc, hook_counts, hook_waits, hook_installs, unhook_counts, unhook_waits, unhook_restores,
  lookup_reads, releases,
}
use mac_osx_file_system_filt.Hook.Threads.Counting.{one, references, Stored}

-- The entry to which a thread holds a reference, or 0.
abbrev pub held : Pc → ℕ
held (hook_counts e) = e
held (hook_waits vnode v_op new) = new
held (hook_installs vnode v_op new) = new
held (unhook_counts v_op e) = e
held (unhook_waits v_op e) = e
held (unhook_restores v_op e) = e
held (lookup_reads vnode e indx) = e
held (releases e) = e
held _ = 0

module _ ⦃g : HashTable⦄ where
  -- The count of an entry is what the table keeps and what is held.
  pub record Counted (r : Registry g.Table) (a h : ℕ) : Type 0 where
    pub kept : ℕ
    pub stored : Stored r.table a kept
    pub counted : references r a ≡ kept + h

  -- A new entry is known to its thread alone.
  pub record IsPrivate (r : Registry g.Table) (a : ℕ) : Type 0 where
    pub some : a ≢ 0
    pub outside : (j : ℕ) → g.ght_get r.table j ≢ a
    pub single : references r a ≡ 1

  abbrev pub Own : Registry g.Table → Pc → Type 0
  Own r (hook_waits vnode v_op new) = IsPrivate r new
  Own r (hook_installs vnode v_op new) = IsPrivate r new
  Own r _ = Unit

  -- Where a thread goes by whether it has got an entry.
  pub held-if :
      (e a : ℕ) (p q : Pc)
      → held p ≡ 0
      → held q ≡ e
      → one (held (if e == 0 then p else q)) a ≡ one e a
  held-if e a p q first second = elim (Bool-cases (e == 0)) [
    | inl null ↦ rw (null, first, eq_of_== e 0 null)
    | inr got ↦ rw (got, second)
  ]

  -- A step of the registry that leaves the table, and changes the count as told.
  pub Counted-same :
      (r s : Registry g.Table) (a h k : ℕ)
      → s.table ≡ r.table
      → references s a + h ≡ references r a + k
      → Counted r a h
      → Counted s a k
  Counted-same r s a h k table c old = record {
    kept = old.kept;
    stored = rw table old.stored;
    counted = omega (arith, c, old.counted);
  }

  pub if-missing :
      (t : g.Table) (k j : ℕ)
      → g.ght_get t k ≡ 0
      → (if k == j then 0 else g.ght_get t j) ≡ g.ght_get t j
  if-missing t k j null = elim (Bool-cases (k == j)) [
    | inl same ↦ rw (same, ← eq_of_== k j same, null)
    | inr other ↦ rw other
  ]

  -- A thread that holds nothing.
  pub unheld : (r : Registry g.Table) (a o : ℕ) → a ≢ 0 → Counted r a (one 0 a + o) → Counted r a o
  unheld r a o named old = record {
    kept = old.kept;
    stored = old.stored;
    counted = ground (arith, old.counted);
  }

  pub retrieve-table :
      (r : Registry g.Table) (v_op : ℕ) (b : Bool) → (retrieve_entry r v_op b).1.table ≡ r.table
  unfolding retrieve_entry
  retrieve-table r v_op b = ground arith

  retrieve-references :
      (r : Registry g.Table) (v_op a : ℕ)
      → a ≢ 0
      → references (retrieve_entry r v_op true).1 a
        ≡ references r a + one (retrieve_entry r v_op true).0 a
  unfolding retrieve_entry retain
  retrieve-references r v_op a named = ground arith

  pub retrieve-Counted :
      (r : Registry g.Table) (v_op a o : ℕ)
      → a ≢ 0
      → Counted r a (one 0 a + o)
      → let (e, s) = retrieve_entry r v_op true in Counted s a (one e a + o)
  retrieve-Counted r v_op a o named old =
      Counted-same r _ a o _ (retrieve-table r v_op true)
        (omega (arith, retrieve-references r v_op a named)) (unheld r a o named old)
