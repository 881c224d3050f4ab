-- ===== src/Ght/Iterate.antt =====
-- The iteration by age of FsdFilter/CommonHashTable.cpp, and the functions that walk over the whole
-- table: ght_finalize, ght_rehash, and with it ght_insert.
use mac_osx_file_system_filt.Base.{
  ℕ, zero, suc, ◌+◌, if◌then◌else◌, ◌==◌, Option, none, some, List, [], ◌∷◌, false,
}
use mac_osx_file_system_filt.Hook.HashTable.{GhtStatusCode}
use mac_osx_file_system_filt.Ght.{GhtHashKey, Memory, GhtHashTable}
use mac_osx_file_system_filt.Ght.Bucket.{set_entry, free_entry_chain}
use mac_osx_file_system_filt.Ght.Table.{
  Kernel, BlockEvent, block_freed, table_block, entries_block, nr_block, ght_create, ght_set_alloc,
  ght_set_hash, ght_set_heuristics, ght_set_rehash, BucketFree, insert_using,
}

-- ght_iterator_t
pub record GhtIterator : Type 0 where
  pub p_entry : ℕ
  pub p_next : ℕ

-- first_keysize: the datum, the key when there is an entry, and the iterator.
unfoldable pub first_keysize : GhtHashTable → Memory → ℕ × Option GhtHashKey × GhtIterator
first_keysize t m = if t.p_oldest == 0 then (0, none, record { p_entry = 0; p_next = 0 }) else (
  m.p_data t.p_oldest,
  some (m.key t.p_oldest),
  record { p_entry = t.p_oldest; p_next = m.p_newer t.p_oldest },
)

unfoldable pub next_keysize : Memory → GhtIterator → ℕ × Option GhtHashKey × GhtIterator
next_keysize m i = if i.p_next == 0 then (0, none, record { p_entry = 0; p_next = 0 }) else (
  m.p_data i.p_next,
  some (m.key i.p_next),
  record { p_entry = i.p_next; p_next = m.p_newer i.p_next },
)

-- The loop of ght_finalize over the buckets from i.
unfoldable pub finalize_loop : ℕ → ℕ → GhtHashTable → Memory → GhtHashTable × Memory
finalize_loop zero i t m = (t, m)
finalize_loop (suc n) i t m =
    finalize_loop n (i + 1) (set_entry t i 0) (free_entry_chain m.allocations m (t.pp_entries i))

-- ght_finalize, on a table that ght_create returned, whose two arrays are not NULL: the memory, and
-- what has been freed, in order.
unfoldable pub ght_finalize : GhtHashTable → Memory → Memory × List BlockEvent
ght_finalize t m =
    let (t1, m1) = finalize_loop t.i_size 0 t m in
    (m1, block_freed entries_block ∷ block_freed nr_block ∷ block_freed table_block ∷ [])

-- The loop of ght_rehash that fills the new table, from an iterator. The new table is not
-- rehashed, and its bucket_limit is 0.
unfoldable pub refill_loop :
    ℕ → BucketFree → GhtHashTable → Memory → ℕ → GhtIterator → GhtHashTable × Memory
refill_loop zero fn_bucket_free p_tmp m p i = (p_tmp, m)
refill_loop (suc fuel) fn_bucket_free p_tmp m p i =
    let (code, p_tmp1, m1) =
      insert_using (λ t m n. (t, m)) fn_bucket_free p_tmp m (m.p_data i.p_entry)
        (m.key i.p_entry) in
    let (p1, key, i1) = next_keysize m1 i in
    let rest = refill_loop fuel fn_bucket_free p_tmp1 m1 p1 i1 in
    if p == 0 then (p_tmp, m) else rest

-- The loop of ght_rehash that frees the entries of the old table.
unfoldable pub release_loop : ℕ → ℕ → GhtHashTable → Memory → GhtHashTable × Memory
release_loop zero i t m = (t, m)
release_loop (suc n) i t m =
    let first = t.pp_entries i in
    let t1 = if first == 0 then t else set_entry t i 0 in
    let m1 = if first == 0 then m else free_entry_chain m.allocations m first in
    release_loop n (i + 1) t1 m1

-- ght_rehash. The result of ght_create is not tested, except by an assertion.
unfoldable pub ght_rehash : Kernel → BucketFree → GhtHashTable → Memory → ℕ → GhtHashTable × Memory
ght_rehash kernel fn_bucket_free t m i_size = elim ((ght_create kernel i_size t.non_block).0) [
  | none ↦ kernel.at_null t m
  | some created ↦
      let hashed = ght_set_hash created t.fn_hash in
      let p_tmp = ght_set_rehash (ght_set_heuristics (ght_set_alloc hashed t.fn_alloc) 0) false in
      let (p, key, i) = first_keysize t m in
      let (p_tmp1, m1) = refill_loop m.allocations fn_bucket_free p_tmp m p i in
      let (t1, m2) = release_loop t.i_size 0 t m1 in
      (
        record t1 {
          i_size = p_tmp1.i_size;
          i_size_mask = p_tmp1.i_size_mask;
          i_items = p_tmp1.i_items;
          pp_entries = p_tmp1.pp_entries;
          p_nr = p_tmp1.p_nr;
          p_oldest = p_tmp1.p_oldest;
          p_newest = p_tmp1.p_newest;
        },
        m2,
      )
]

unfoldable pub ght_insert :
    Kernel
    → BucketFree
    → GhtHashTable
    → Memory
    → ℕ
    → GhtHashKey
    → GhtStatusCode × GhtHashTable × Memory
ght_insert kernel fn_bucket_free = insert_using (ght_rehash kernel fn_bucket_free) fn_bucket_free
