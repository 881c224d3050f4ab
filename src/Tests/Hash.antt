-- ===== src/Tests/Hash.antt =====
-- Examples of the theorems on the hash table.
use mac_osx_file_system_filt.Base.{
  ℕ, ◌≡◌, ◌≢◌, ◌⊎◌, inl, inr, refl, Bool, true, false, Bool-cases, if◌then◌else◌, ◌==◌, ◌&&◌, List,
  [], ◌∷◌, ◌++◌, none, some, arith, ◌-◌, ◌^◌, ◌<◌, ◌≤◌, get_or, ◌*◌,
}
use mac_osx_file_system_filt.Ght.{GhtHashKey, same_key, Memory, GhtHashTable}
use mac_osx_file_system_filt.Ght.Bucket.{search_in_bucket, search_loop, he_create, allocate}
use mac_osx_file_system_filt.Ght.Correct.{IsValid, Holds, insert-code, insert-Holds, remove-outcome}
use mac_osx_file_system_filt.Ght.Crc.{crc32_table, shift_bits, crc32_table-shift_bits}
use mac_osx_file_system_filt.Ght.Create.{create-IsSized, create-Holds}
use mac_osx_file_system_filt.Ght.Blocks.{blocks_after, create-blocks}
use mac_osx_file_system_filt.Ght.Hash.{ght_one_at_a_time_hash, one_at_a_time_loop}
use mac_osx_file_system_filt.Ght.Instance.{pointer_key, no_memory_used}
use mac_osx_file_system_filt.Ght.Iterate.{ght_insert}
use mac_osx_file_system_filt.Ght.Replace.{replace-outcome}
use mac_osx_file_system_filt.Ght.Sequence.{
  Call, insert_call, replace_call, remove_call, perform_calls, map_after_calls, perform_calls-Holds,
}
use mac_osx_file_system_filt.Ght.Table.{
  Kernel, BucketFree, new_table, size_loop, ght_create, ght_get, ght_replace, ght_remove, bucket_of,
  insert_using, add_entry, link_first, limit_bucket, link_newest, table_block, entries_block,
  nr_block,
}
use mac_osx_file_system_filt.Hook.Teardown.{
  FreeEvent, entry_released, fn_freed, free_table, free_table-create, free_table-twice,
}
use mac_osx_file_system_filt.Hook.HashTable.{ght_ok, ght_already_in_hash, ght_error}

-- A kernel with memory for two entries.
abbrev pub two_entries : Kernel
two_entries = record {
  gives_table = λ b. true;
  gives_entries = λ b n. true;
  gives_nr = λ b n. true;
  mac_kalloc = λ b live. if live 16 then if live 32 then 0 else 32 else 16;
  at_null = λ t m. (t, m);
}

pub two_entries_free :
    (b : Bool) (live : ℕ → Bool)
    → two_entries.mac_kalloc b live ≢ 0
    → live (two_entries.mac_kalloc b live) ≡ false
two_entries_free b live ne = elim (Bool-cases (live 16)) [
  | inr e ↦ rw (e, e) refl
  | inl e ↦ elim (Bool-cases (live 32)) [
    | inr f ↦ rw (e, f, f) refl
    | inl f ↦ absurd (ne (rw (e, f) refl))
  ]
]

abbrev pub no_callback : BucketFree
no_callback = λ d k t m. (t, m)

abbrev pub small_table : GhtHashTable
small_table = new_table two_entries (4, 3) false

pub create_small : (ght_create two_entries 3 false).0 ≡ some small_table
unfolding ght_create size_loop
create_small = refl

small_table-IsValid : IsValid small_table no_memory_used
small_table-IsValid =
    (create-Holds two_entries 3 false small_table no_memory_used two_entries_free
      create_small).valid

insert-code_example :
    (ght_insert two_entries no_callback small_table no_memory_used 5 (pointer_key 80)).0 ≡ (
      if (ght_get small_table no_memory_used (pointer_key 80)).0 == 0
      then if allocate small_table no_memory_used == 0 then ght_error else ght_ok
      else ght_already_in_hash)
insert-code_example =
    insert-code small_table no_memory_used small_table-IsValid (pointer_key 80) two_entries
      no_callback 5

inserts_small :
    (ght_insert two_entries no_callback small_table no_memory_used 5 (pointer_key 80)).0 ≡ ght_ok
unfolding ght_insert insert_using search_in_bucket search_loop he_create allocate
inserts_small = refl

insert-Holds_example :
    let r = ght_insert two_entries no_callback small_table no_memory_used 5 (pointer_key 80) in
    Holds r.1 r.2 two_entries.mac_kalloc
      (λ j. if same_key (pointer_key 80) j then 5 else (ght_get small_table no_memory_used j).0)
insert-Holds_example =
    insert-Holds small_table no_memory_used small_table-IsValid (pointer_key 80) two_entries
      no_callback 5 (omega arith) inserts_small

-- The table with one entry.
abbrev one_table : GhtHashTable
one_table = (ght_insert two_entries no_callback small_table no_memory_used 5 (pointer_key 80)).1

abbrev one_memory : Memory
one_memory = (ght_insert two_entries no_callback small_table no_memory_used 5 (pointer_key 80)).2

one_table-Holds :
    Holds one_table one_memory two_entries.mac_kalloc
      (λ j. if same_key (pointer_key 80) j then 5 else (ght_get small_table no_memory_used j).0)
one_table-Holds =
    insert-Holds small_table no_memory_used small_table-IsValid (pointer_key 80) two_entries
      no_callback 5 (omega arith) inserts_small

remove-outcome_example :
    let r = ght_remove one_table one_memory (pointer_key 80) in
    (r.0 ≡ (ght_get one_table one_memory (pointer_key 80)).0)
    × Holds r.1 r.2 one_table.fn_alloc
        (λ j. if same_key (pointer_key 80) j then 0 else (ght_get one_table one_memory j).0)
remove-outcome_example = remove-outcome one_table one_memory one_table-Holds.valid (pointer_key 80)

replace-outcome_example :
    let r = ght_replace one_table one_memory 7 (pointer_key 80) in
    (r.0 ≡ (ght_get one_table one_memory (pointer_key 80)).0)
    × Holds r.1 r.2 one_table.fn_alloc (λ j.
      if (ght_get one_table one_memory (pointer_key 80)).0 == 0
      then (ght_get one_table one_memory j).0
      else if same_key (pointer_key 80) j
      then 7
      else (ght_get one_table one_memory j).0)
replace-outcome_example =
    replace-outcome one_table one_memory one_table-Holds.valid 7 (pointer_key 80) (omega arith)

abbrev some_calls : List Call
some_calls =
    insert_call 5 (pointer_key 80)
    ∷ replace_call 6 (pointer_key 80)
    ∷ insert_call 7 (pointer_key 96)
    ∷ remove_call (pointer_key 80)
    ∷ []

perform_calls-Holds_example :
    let s = perform_calls two_entries no_callback some_calls (small_table, no_memory_used) in
    Holds s.0 s.1 two_entries.mac_kalloc
      (map_after_calls two_entries no_callback some_calls (small_table, no_memory_used) (λ k. 0))
perform_calls-Holds_example =
    perform_calls-Holds two_entries no_callback some_calls (small_table, no_memory_used)
      two_entries.mac_kalloc (λ k. 0) (omega arith, (omega arith, (omega arith, (tt, tt))))
      (create-Holds two_entries 3 false small_table no_memory_used two_entries_free create_small)

create-IsSized_example :
    (j : ℕ) × (small_table.i_size ≡ 2 ^ j)
    × (small_table.i_size_mask ≡ 2 ^ j - 1)
    × (3 ≤ small_table.i_size)
    × ((j ≡ 0) ⊎ (2 ^ (j - 1) < 3))
    × ((k : GhtHashKey) → bucket_of small_table k < small_table.i_size)
create-IsSized_example = create-IsSized two_entries 3 false small_table (omega arith) create_small

create-blocks_example :
    let r = ght_create two_entries 3 false in
    let n = (size_loop 32 3 1 1).0 in
    let given =
      two_entries.gives_table false
      && two_entries.gives_entries false n
      && two_entries.gives_nr false n in
    ((given ≡ false) × (r.0 ≡ none) × (blocks_after r.1 [] ≡ some []))
    ⊎ ((given ≡ true)
        × (r.0 ≢ none)
        × (blocks_after r.1 [] ≡ some (nr_block ∷ entries_block ∷ table_block ∷ [])))
create-blocks_example = create-blocks two_entries 3 false

crc32_table-shift_bits_example : get_or crc32_table 200 0 ≡ shift_bits 8 (200 * 2 ^ 24)
crc32_table-shift_bits_example = crc32_table-shift_bits 200 (omega arith)

free_table-create_example :
    let (events, m', freed) = free_table small_table one_memory in
    (events ≡ [])
    × (m' ≡ one_memory)
    × (blocks_after ((ght_create two_entries 3 false).1 ++ freed) [] ≡ some [])
free_table-create_example =
    free_table-create two_entries 3 false small_table one_memory create_small

-- The entry object at 5 is the datum of the only entry.
oldest_entry :
    (one_memory.allocations ≡ 1)
    × (one_table.p_oldest ≢ 0)
    × (one_memory.key one_table.p_oldest ≡ pointer_key 80)
    × (one_memory.p_data one_table.p_oldest ≡ 5)
unfolding ght_insert insert_using search_in_bucket search_loop he_create allocate add_entry
    link_first limit_bucket link_newest ght_one_at_a_time_hash one_at_a_time_loop
oldest_entry = (refl, λ e. ground (arith, e), refl, refl)

free_table-twice_example :
    (rest : List FreeEvent) × ((free_table one_table one_memory).0
      ≡ entry_released 5 ∷ fn_freed 5 ∷ rest)
free_table-twice_example =
    free_table-twice one_table one_memory one_table-Holds.valid (pointer_key 80) 0 5 oldest_entry.0
      oldest_entry.1 oldest_entry.2 oldest_entry.3 (omega arith)
      (one_table-Holds.gives (pointer_key 80))
