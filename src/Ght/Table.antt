-- ===== src/Ght/Table.antt =====
-- The exported functions of FsdFilter/CommonHashTable.cpp that create a table, set its options,
-- and look up, add, replace and remove an entry.
use Prim.Native.Nat.{bit_and}
use mac_osx_file_system_filt.Base.{
  ℕ, zero, suc, ◌+◌, ◌-◌, ◌*◌, ◌%◌, ◌^◌, Bool, false, if◌then◌else◌, ◌==◌, ◌&&◌, not, ltb, leb,
  update, Option, none, some, List, [], ◌∷◌,
}
use mac_osx_file_system_filt.Hook.HashTable.{GhtStatusCode, ght_ok, ght_already_in_hash, ght_error}
use mac_osx_file_system_filt.Ght.{GhtHashKey, Memory, GhtHashTable}
use mac_osx_file_system_filt.Ght.Hash.{ght_one_at_a_time_hash}
use mac_osx_file_system_filt.Ght.Bucket.{
  set_next, set_prev, set_older, set_newer, set_entry, remove_from_chain, search_in_bucket,
  he_create, he_finalize,
}

-- The kernel's allocator: whether the table and the two arrays of so many elements are given when
-- one may block or not, and the address of an entry. at_null is what the machine does in ght_rehash
-- when it goes on with the NULL of ght_create.
pub record Kernel : Type 0 where
  pub gives_table : Bool → Bool
  pub gives_entries : Bool → ℕ → Bool
  pub gives_nr : Bool → ℕ → Bool
  pub mac_kalloc : Bool → (ℕ → Bool) → ℕ
  pub at_null : GhtHashTable → Memory → GhtHashTable × Memory

-- The loop of ght_create: p_ht->i_size and i. An int is shifted by its count modulo 32.
unfoldable pub size_loop : ℕ → ℕ → ℕ → ℕ → ℕ × ℕ
size_loop zero wanted i_size i = (i_size, i)
size_loop (suc fuel) wanted i_size i =
    let rest = size_loop fuel wanted (2 ^ (i % 32)) (i + 1) in
    if ltb i_size wanted then rest else (i_size, i)

-- What ght_create allocates, and a successful mac_kalloc or a mac_kfree of it.
pub data Block : Type 0 where
  table_block entries_block nr_block : Block

pub data BlockEvent : Type 0 where
  block_allocated block_freed : Block → BlockEvent

-- The members that ght_create sets, from what its loop ends with.
abbrev pub new_table : Kernel → ℕ × ℕ → Bool → GhtHashTable
new_table kernel sized non_block = record {
  i_items = 0;
  i_size = sized.0;
  fn_hash = ght_one_at_a_time_hash;
  fn_alloc = kernel.mac_kalloc;
  i_heuristics = 0;
  i_automatic_rehash = false;
  pp_entries = λ b. 0;
  p_nr = λ b. 0;
  i_size_mask = 2 ^ (sized.1 - 1) - 1;
  bucket_limit = 0;
  non_block = non_block;
  p_oldest = 0;
  p_newest = 0;
}

-- ght_create: the table, or none for NULL, and what has been allocated and freed, in order. A size
-- of 32 bits is reached in 31 rounds.
unfoldable pub ght_create : Kernel → ℕ → Bool → Option GhtHashTable × List BlockEvent
ght_create kernel i_size non_block =
    let sized = size_loop 32 i_size 1 1 in
    if not (kernel.gives_table non_block)
    then (none, [])
    else if not (kernel.gives_entries non_block sized.0)
    then (none, block_allocated table_block ∷ block_freed table_block ∷ [])
    else if not (kernel.gives_nr non_block sized.0)
    then (
      none,
      block_allocated table_block
          ∷ block_allocated entries_block
          ∷ block_freed entries_block
          ∷ block_freed table_block
          ∷ [],
    )
    else (
      some (new_table kernel sized non_block),
      block_allocated table_block ∷ block_allocated entries_block ∷ block_allocated nr_block ∷ [],
    )

unfoldable pub ght_set_alloc : GhtHashTable → (Bool → (ℕ → Bool) → ℕ) → GhtHashTable
ght_set_alloc t f = record t { fn_alloc = f }

unfoldable pub ght_set_hash : GhtHashTable → (GhtHashKey → ℕ) → GhtHashTable
ght_set_hash t f = record t { fn_hash = f }

unfoldable pub ght_set_heuristics : GhtHashTable → ℕ → GhtHashTable
ght_set_heuristics t h = record t { i_heuristics = h }

unfoldable pub ght_set_rehash : GhtHashTable → Bool → GhtHashTable
ght_set_rehash t b = record t { i_automatic_rehash = b }

-- ght_set_bounded_buckets. none is the panic.
unfoldable pub ght_set_bounded_buckets : GhtHashTable → ℕ → Bool → Option GhtHashTable
ght_set_bounded_buckets t limit has_fn =
    if ltb 0 limit && not has_fn then none else some (record t { bucket_limit = limit })

unfoldable pub ght_size : GhtHashTable → ℕ
ght_size t = t.i_items

unfoldable pub ght_table_size : GhtHashTable → ℕ
ght_table_size t = t.i_size

-- l_key = get_hash_value(p_ht, &key) & p_ht->i_size_mask
abbrev pub bucket_of : GhtHashTable → GhtHashKey → ℕ
bucket_of t p_key = bit_and (t.fn_hash p_key) t.i_size_mask

-- ght_get. The heuristics may have moved the entry that is found.
unfoldable pub ght_get : GhtHashTable → Memory → GhtHashKey → ℕ × GhtHashTable × Memory
ght_get t m p_key =
    let found = search_in_bucket t m (bucket_of t p_key) p_key t.i_heuristics in
    (if found.0 == 0 then 0 else found.2.p_data found.0, found.1, found.2)

unfoldable pub ght_replace : GhtHashTable → Memory → ℕ → GhtHashKey → ℕ × GhtHashTable × Memory
ght_replace t m p_entry_data p_key =
    let (p_e, t1, m1) = search_in_bucket t m (bucket_of t p_key) p_key t.i_heuristics in
    if p_e == 0
    then (0, t1, m1)
    else (m1.p_data p_e, t1, record m1 { p_data = update m1.p_data p_e p_entry_data })

-- The part of ght_remove under `if (p_out)`.
unfoldable pub take_out : GhtHashTable → Memory → ℕ → ℕ → GhtHashTable × Memory
take_out t m l_key p_out =
    let (t1, m1) = remove_from_chain t m l_key p_out in
    let t2 = record t1 {
      i_items = (t1.i_items + 2 ^ 32 - 1) % 2 ^ 32;
      p_nr = update t1.p_nr l_key ((t1.p_nr l_key + 2 ^ 32 - 1) % 2 ^ 32);
    } in
    (t2, he_finalize (set_prev (set_next m1 p_out 0) p_out 0) p_out)

unfoldable pub ght_remove : GhtHashTable → Memory → GhtHashKey → ℕ × GhtHashTable × Memory
ght_remove t m p_key =
    let l_key = bucket_of t p_key in
    let (p_out, t1, m1) = search_in_bucket t m l_key p_key 0 in
    let (t2, m2) = take_out t1 m1 l_key p_out in
    if p_out == 0 then (0, t1, m1) else (m1.p_data p_out, t2, m2)

-- Place the entry first in the list.
unfoldable pub link_first : GhtHashTable → Memory → ℕ → ℕ → GhtHashTable × Memory
link_first t m l_key p_entry =
    let first = t.pp_entries l_key in
    let m1 = set_prev (set_next m p_entry first) p_entry 0 in
    (set_entry t l_key p_entry, if first == 0 then m1 else set_prev m1 first p_entry)

-- The entry becomes the newest.
unfoldable pub link_newest : GhtHashTable → Memory → ℕ → GhtHashTable × Memory
link_newest t m p_entry =
    let t1 = if t.p_oldest == 0 then record t { p_oldest = p_entry } else t in
    let m1 = set_older m p_entry t.p_newest in
    let m2 = if t.p_newest == 0 then m1 else set_newer m1 t.p_newest p_entry in
    (record t1 { p_newest = p_entry }, m2)

-- for (p = p_ht->pp_entries[l_key]; p->p_next != NULL; p = p->p_next);
unfoldable pub last_loop : ℕ → Memory → ℕ → ℕ
last_loop zero m p = p
last_loop (suc fuel) m p =
    let rest = last_loop fuel m (m.p_next p) in if m.p_next p == 0 then p else rest

-- p_ht->p_nr[l_key]++ and p_ht->i_items++
abbrev pub count_entry : GhtHashTable → ℕ → GhtHashTable
count_entry t l_key = record t {
  p_nr = update t.p_nr l_key ((t.p_nr l_key + 1) % 2 ^ 32);
  i_items = (t.i_items + 1) % 2 ^ 32;
}

-- The callback fn_bucket_free and the function ght_rehash are arguments of ght_insert.
abbrev pub BucketFree : Type 0
BucketFree = ℕ → GhtHashKey → GhtHashTable → Memory → GhtHashTable × Memory

-- If this is a limited bucket hash table, potentially remove the last item.
unfoldable pub limit_bucket : BucketFree → GhtHashTable → Memory → ℕ → GhtHashTable × Memory
limit_bucket fn_bucket_free t m l_key =
    let p = last_loop m.allocations m (t.pp_entries l_key) in
    let (t1, m1) = remove_from_chain t m l_key p in
    let (t2, m2) = fn_bucket_free (m1.p_data p) (m1.key p) t1 m1 in
    if not (t.bucket_limit == 0) && leb t.bucket_limit (t.p_nr l_key)
    then (t2, he_finalize m2 p)
    else (count_entry t l_key, m)

-- ght_insert from the place where the entry is made.
unfoldable pub add_entry :
    BucketFree → GhtHashTable → Memory → GhtHashKey → ℕ → GhtHashTable × Memory
add_entry fn_bucket_free t m p_key p_entry =
    let l_key = bucket_of t p_key in
    let (t1, m1) = link_first t m l_key p_entry in
    let (t2, m2) = limit_bucket fn_bucket_free t1 m1 l_key in link_newest t2 m2 p_entry

unfoldable pub insert_using :
    (GhtHashTable → Memory → ℕ → GhtHashTable × Memory)
    → BucketFree
    → GhtHashTable
    → Memory
    → ℕ
    → GhtHashKey
    → GhtStatusCode × GhtHashTable × Memory
insert_using rehash fn_bucket_free t m p_entry_data p_key =
    let (found, t1, m1) = search_in_bucket t m (bucket_of t p_key) p_key 0 in
    let (p_entry, m2) = he_create t1 m1 p_entry_data p_key in
    let is_full = t1.i_automatic_rehash && ltb (2 * t1.i_size % 2 ^ 32) t1.i_items in
    let (t3, m3) = if is_full then rehash t1 m2 (2 * t1.i_size % 2 ^ 32) else (t1, m2) in
    let (t4, m4) = add_entry fn_bucket_free t3 m3 p_key p_entry in
    if not (found == 0)
    then (ght_already_in_hash, t1, m1)
    else if p_entry == 0
    then (ght_error, t1, m2)
    else (ght_ok, t4, m4)
