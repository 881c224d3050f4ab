-- ===== src/Hook/HashTable.antt =====
-- The interface between the hook registry of FsdFilter/VNodeHook.cpp and the hash table of
-- FsdFilter/CommonHashTable.cpp: the operations that the registry calls, with the laws on which
-- it relies. A key is the address of an operation vector, a datum is the address of an entry
-- object; 0 is NULL.
use mac_osx_file_system_filt.Base.{ℕ, ◌≡◌, ◌≢◌, Bool, Option, some, if◌then◌else◌, ◌==◌}

-- GHT_STATUS_CODE
pub data GhtStatusCode : Type 0 where
  ght_ok ght_already_in_hash ght_error : GhtStatusCode

pub record HashTable : Type 1 where
  pub Table : Type 0
  pub IsValid : Table → Type 0
  pub ght_create : ℕ → Bool → Option Table
  pub ght_get : Table → ℕ → ℕ
  pub ght_insert : Table → ℕ → ℕ → GhtStatusCode × Table
  pub ght_remove : Table → ℕ → ℕ × Table
  pub create-IsValid : (n : ℕ) (b : Bool) {t : Table} → ght_create n b ≡ some t → IsValid t
  pub get-create :
      (n : ℕ) (b : Bool) {t : Table} → ght_create n b ≡ some t → (k : ℕ) → ght_get t k ≡ 0
  pub insert-IsValid : (t : Table) (d k : ℕ) → IsValid t → d ≢ 0 → IsValid (ght_insert t d k).1
  pub get-insert :
      (t : Table) (d k j : ℕ)
      → IsValid t
      → d ≢ 0
      → (ght_insert t d k).0 ≡ ght_ok
      → ght_get (ght_insert t d k).1 j ≡ (if k == j then d else ght_get t j)
  pub get-insert_failed :
      (t : Table) (d k j : ℕ)
      → IsValid t
      → (ght_insert t d k).0 ≢ ght_ok
      → ght_get (ght_insert t d k).1 j ≡ ght_get t j
  pub remove-get : (t : Table) (k : ℕ) → IsValid t → (ght_remove t k).0 ≡ ght_get t k
  pub remove-IsValid : (t : Table) (k : ℕ) → IsValid t → IsValid (ght_remove t k).1
  pub get-remove :
      (t : Table) (k j : ℕ)
      → IsValid t
      → ght_get (ght_remove t k).1 j ≡ (if k == j then 0 else ght_get t j)
