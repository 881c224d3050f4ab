-- ===== src/Hook/Teardown.antt =====
-- FltVnodeHooksHashTable::free of FsdFilter/VNodeHook.cpp, over the functions of the hash table. The
-- loop treats the datum that ght_first and ght_next return as an entry of the hash table; it
-- is the entry object, which ght_remove returns, too.
use mac_osx_file_system_filt.Base.{
  ℕ, zero, suc, ◌+◌, ◌≡◌, ◌≢◌, refl, ap, ◌∙◌, Option, none, some, List, [], ◌∷◌, ◌++◌, Bool,
  Bool-cases, inl, inr, if◌then◌else◌, ◌==◌, ==_ne, ne_of_==, arith,
}
use mac_osx_file_system_filt.Ght.{GhtHashKey, GhtHashTable, Memory}
use mac_osx_file_system_filt.Ght.Bucket.{free_entry_chain, set_entry}
use mac_osx_file_system_filt.Ght.Correct.{IsValid, remove-outcome}
use mac_osx_file_system_filt.Ght.Blocks.{blocks_after, create-made, create-table}
use mac_osx_file_system_filt.Ght.Iterate.{
  GhtIterator, first_keysize, next_keysize, ght_finalize, finalize_loop,
}
use mac_osx_file_system_filt.Ght.Table.{
  Kernel, BlockEvent, block_freed, table_block, entries_block, nr_block, ght_create, ght_get,
  ght_remove,
}

-- entry->release(), and p_table->fn_free( p_e, p_e->size ), on the object at an address.
pub data FreeEvent : Type 0 where
  entry_released fn_freed : ℕ → FreeEvent

-- The loop, which ends when there is no further datum. Each round goes on to a newer entry, of
-- which there are no more than were ever allocated.
unfoldable pub free_loop :
    ℕ
    → GhtHashTable
    → Memory
    → ℕ
    → Option GhtHashKey
    → GhtIterator
    → List FreeEvent × GhtHashTable × Memory
free_loop zero t m p_e p_key i = ([], t, m)
free_loop (suc n) t m p_e none i = ([], t, m)
free_loop (suc n) t m p_e (some key) i =
    let (entry, t1, m1) = ght_remove t m key in
    let (p_e1, key1, i1) = next_keysize m1 i in
    let (events, t2, m2) = free_loop n t1 m1 p_e1 key1 i1 in
    if p_e == 0
    then ([], t, m)
    else (if entry == 0 then events else entry_released entry ∷ fn_freed p_e ∷ events, t2, m2)

-- FltVnodeHooksHashTable::free: the events of the loop, the memory, and what ght_finalize has freed.
unfoldable pub free_table : GhtHashTable → Memory → List FreeEvent × Memory × List BlockEvent
free_table t m =
    let (p_e, p_key, i) = first_keysize t m in
    let (events, t1, m1) = free_loop m.allocations t m p_e p_key i in
    let (m2, blocks) = ght_finalize t1 m1 in (events, m2, blocks)

free_entry_chain-null : (fuel : ℕ) (m : Memory) → free_entry_chain fuel m 0 ≡ m
unfolding free_entry_chain
free_entry_chain-null zero m = refl
free_entry_chain-null (suc fuel) m = refl

finalize_loop-empty :
    (n i : ℕ) (t : GhtHashTable) (m : Memory)
    → ((b : ℕ) → t.pp_entries b ≡ 0)
    → (finalize_loop n i t m).1 ≡ m
unfolding finalize_loop
finalize_loop-empty zero i t m empty = refl
finalize_loop-empty (suc n) i t m empty =
    let chain : free_entry_chain m.allocations m (t.pp_entries i) ≡ m =
      ap (free_entry_chain m.allocations m) (empty i) ∙ free_entry_chain-null m.allocations m in
    ap (λ m'. (finalize_loop n (i + 1) (set_entry t i 0) m').1) chain
    ∙ finalize_loop-empty n (i + 1) (set_entry t i 0) m (λ b. ground (arith, empty b))

free_loop-end :
    (n : ℕ) (t : GhtHashTable) (m : Memory) (i : GhtIterator)
    → free_loop n t m 0 none i ≡ ([], t, m)
unfolding free_loop
free_loop-end zero t m i = refl
free_loop-end (suc n) t m i = refl

first_keysize-empty :
    (t : GhtHashTable) (m : Memory)
    → t.p_oldest ≡ 0
    → first_keysize t m ≡ (0, none, record { p_entry = 0; p_next = 0 })
unfolding first_keysize
first_keysize-empty t m oldest = elim (Bool-cases (t.p_oldest == 0)) [
  | inl null ↦ rw null refl
  | inr some_entry ↦ absurd (ne_of_== _ _ some_entry oldest)
]

free_table-empty :
    (t : GhtHashTable) (m : Memory)
    → ((b : ℕ) → t.pp_entries b ≡ 0)
    → t.p_oldest ≡ 0
    → free_table t m
      ≡ ([], m, block_freed entries_block ∷ block_freed nr_block ∷ block_freed table_block ∷ [])
unfolding free_table ght_finalize
free_table-empty t m empty oldest =
    rw (first_keysize-empty t m oldest, free_loop-end m.allocations t m _)
      (ap
        (λ m'.
          ([], m', block_freed entries_block ∷ block_freed nr_block ∷ block_freed table_block ∷ []))
        (finalize_loop-empty t.i_size 0 t m empty))

-- The table that ght_create returned, if it did, is torn down without an entry event and without a
-- change of the memory, and of the blocks that ght_create had allocated each is freed once.
pub free_table-create :
    (kernel : Kernel) (i_size : ℕ) (non_block : Bool) (t : GhtHashTable) (m : Memory)
    → (ght_create kernel i_size non_block).0 ≡ some t
    → let (events, m', freed) = free_table t m in
      (events ≡ [])
      × (m' ≡ m)
      × (blocks_after ((ght_create kernel i_size non_block).1 ++ freed) [] ≡ some [])
free_table-create kernel i_size non_block t m created =
    let e = create-table kernel i_size non_block t created in
    let done = free_table-empty t m (λ b. ap (λ x. x.pp_entries b) e) (ap (λ x. x.p_oldest) e) in
    rw (done, create-made kernel i_size non_block t created) (refl, refl, refl)

module _ (t : GhtHashTable) (m : Memory) (valid : IsValid t m) (key : GhtHashKey) where
  -- A round on an entry object that its key finds.
  free_loop-round :
      (n e : ℕ) (i : GhtIterator)
      → e ≢ 0
      → (ght_get t m key).0 ≡ e
      → (rest : List FreeEvent) × ((free_loop (suc n) t m e (some key) i).0
          ≡ entry_released e ∷ fn_freed e ∷ rest)
  unfolding free_loop
  free_loop-round n e i named there =
      let same = (remove-outcome t m valid key).0 ∙ there in
      rw (==_ne e 0 named, same, ==_ne e 0 named) (_, refl)

  first_keysize-oldest :
      {e : ℕ}
      → t.p_oldest ≢ 0
      → m.key t.p_oldest ≡ key
      → m.p_data t.p_oldest ≡ e
      → first_keysize t m
        ≡ (e, some key, record { p_entry = t.p_oldest; p_next = m.p_newer t.p_oldest })
  unfolding first_keysize
  first_keysize-oldest oldest its_key datum = rw (==_ne t.p_oldest 0 oldest, its_key, datum) refl

  -- On a valid table with an entry, the oldest of which is found under its key: the entry object of
  -- the oldest entry, which is not NULL, is first released and then given to fn_free, before
  -- anything else is.
  pub free_table-twice :
      (n e : ℕ)
      → m.allocations ≡ suc n
      → t.p_oldest ≢ 0
      → m.key t.p_oldest ≡ key
      → m.p_data t.p_oldest ≡ e
      → e ≢ 0
      → (ght_get t m key).0 ≡ e
      → (rest : List FreeEvent) × ((free_table t m).0 ≡ entry_released e ∷ fn_freed e ∷ rest)
  unfolding free_table
  free_table-twice n e made oldest its_key datum named there =
      let i : GhtIterator = record { p_entry = t.p_oldest; p_next = m.p_newer t.p_oldest } in
      let (rest, events) = free_loop-round n e i named there in
      (
        rest,
        rw (first_keysize-oldest oldest its_key datum)
            (ap (λ k. (free_loop k t m e (some key) i).0) made ∙ events),
      )
