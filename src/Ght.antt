-- ===== src/Ght.antt =====
-- The hash table of FsdFilter/CommonHashTable.h and FsdFilter/CommonHashTable.cpp: the structures,
-- and the memory in which its entries lie.
pub mod Hash
pub mod Crc
pub mod Bucket
pub mod Table
pub mod Iterate
pub mod Chain
pub mod Unlink
pub mod View
pub mod Find
pub mod Linked
pub mod Inserted
pub mod Removed
pub mod Value
pub mod Plain
pub mod Correct
pub mod Blocks
pub mod Create
pub mod Instance
pub mod Replace
pub mod Sequence
pub mod Finalize
pub mod Front
pub mod Heuristics
use mac_osx_file_system_filt.Base.{ℕ, Bool, ◌==◌, ◌&&◌}

-- ght_hash_key_t: the size, and the bytes at p_key as the number whose digits they are, the first
-- byte the lowest.
pub record GhtHashKey : Type 0 where
  pub i_size : ℕ
  pub key_data : ℕ

-- (a.i_size == b.i_size) && (memcmp( a.p_key, b.p_key, a.i_size ) == 0)
abbrev pub same_key : GhtHashKey → GhtHashKey → Bool
same_key a b = (a.i_size == b.i_size) && (a.key_data == b.key_data)

-- The members of each ght_hash_entry_t by its address, 0 being NULL; which addresses are those of
-- entries that are allocated and not freed; and how many were allocated so far.
pub record Memory : Type 0 where
  pub p_next : ℕ → ℕ
  pub p_prev : ℕ → ℕ
  pub key : ℕ → GhtHashKey
  pub p_data : ℕ → ℕ
  pub p_older : ℕ → ℕ
  pub p_newer : ℕ → ℕ
  pub live : ℕ → Bool
  pub allocations : ℕ

-- ght_hash_table_t. The arrays pp_entries and p_nr are functions of the bucket; fn_alloc is asked
-- with the flag M_NOWAIT and the addresses in use; fn_free makes an address unused.
pub record GhtHashTable : Type 0 where
  pub i_items : ℕ
  pub i_size : ℕ
  pub fn_hash : GhtHashKey → ℕ
  pub fn_alloc : Bool → (ℕ → Bool) → ℕ
  pub i_heuristics : ℕ
  pub i_automatic_rehash : Bool
  pub pp_entries : ℕ → ℕ
  pub p_nr : ℕ → ℕ
  pub i_size_mask : ℕ
  pub bucket_limit : ℕ
  pub non_block : Bool
  pub p_oldest : ℕ
  pub p_newest : ℕ
