-- ===== src/Tests.antt =====
-- A concrete setting for the examples: a hash table, a kernel, and an operation vector with the
-- slots of reclaim and read.
mod Hooking
mod Whole
mod Interleaving
mod Platform
mod Hash
mod HashWalks
mod Layout
use mac_osx_file_system_filt.Base.{
  ℕ, ◌+◌, ◌≡◌, ◌≢◌, refl, Bool, true, false, List, [], ◌∷◌, some, if◌then◌else◌, ◌==◌, update,
  ==_ne, ==_refl, eq_of_==, ne_of_==, Bool-cases, inl, inr, arith, none, Option, sym, ap, All,
}
use mac_osx_file_system_filt.Hook.Entry.{new_entry}
use mac_osx_file_system_filt.Hook.Guards.{IsEligible, IsUnhookable}
use mac_osx_file_system_filt.Hook.HashTable.{HashTable, GhtStatusCode, ght_ok, ght_already_in_hash}
use mac_osx_file_system_filt.Hook.Located.{located}
use mac_osx_file_system_filt.Hook.Loop.{locate}
use mac_osx_file_system_filt.Hook.Registry.{Env, Registry, vreg, get_vnode_op_vector}
use mac_osx_file_system_filt.Hook.Vector.{IsLaidOut, slots}
use mac_osx_file_system_filt.Hook.Vector.Fresh.{IsFresh}
use mac_osx_file_system_filt.Vnop.Desc.{vnop_reclaim, vnop_read, desc_eq, desc_number}
use mac_osx_file_system_filt.Vnop.Tables.{
  fsd, vop_not_hooked, retrieve_offset_desc, retrieve_entry_by_desc, vop_enum_entries,
  vop_hook_entries,
}
use mac_osx_file_system_filt.Vnop.VopEnum.{vop_eq, vop_index}

abbrev pub map_insert : (ℕ → ℕ) → ℕ → ℕ → GhtStatusCode × (ℕ → ℕ)
map_insert t d k = if t k == 0 then (ght_ok, update t k d) else (ght_already_in_hash, t)

pub map_insert-get :
    (t : ℕ → ℕ) (d k j : ℕ)
    → (map_insert t d k).0 ≡ ght_ok
    → (map_insert t d k).1 j ≡ (if k == j then d else t j)
map_insert-get t d k j ok = elim (Bool-cases (t k == 0)) [
  | inl free ↦ rw free refl
  | inr taken ↦ let bad : ght_already_in_hash ≡ ght_ok = rw taken at ok in ground arith
]

pub map_insert-failed :
    (t : ℕ → ℕ) (d k j : ℕ) → (map_insert t d k).0 ≢ ght_ok → (map_insert t d k).1 j ≡ t j
map_insert-failed t d k j bad = elim (Bool-cases (t k == 0)) [
  | inl free ↦ absurd (bad (rw free refl))
  | inr taken ↦ rw taken refl
]

abbrev pub value_at : Option (ℕ → ℕ) → ℕ → ℕ
value_at none k = 0
value_at (some t) k = t k

-- A map from keys to data stands for the table.
instance abbrev pub map_table : HashTable
map_table = record {
  Table = ℕ → ℕ;
  IsValid = λ t. Unit;
  ght_create = λ size non_block. some (λ k. 0);
  ght_get = λ t k. t k;
  ght_insert = map_insert;
  ght_remove = λ t k. (t k, update t k 0);
  create-IsValid = λ n b e. tt;
  get-create = λ n b e k. sym (ap (λ o. value_at o k) e);
  insert-IsValid = λ t d k v ne. tt;
  get-insert = λ t d k j v ne ok. map_insert-get t d k j ok;
  get-insert_failed = λ t d k j v bad. map_insert-failed t d k j bad;
  remove-get = λ t k v. refl;
  remove-IsValid = λ t k v. tt;
  get-remove = λ t k j v. refl;
}

-- Every vnode has the vector at 4096, with the slot of reclaim at 72 and the one of read at 80; the
-- vnode 100 has the parent 101, and 7 is a recycled vnode.
abbrev pub kernel : Env
kernel = record {
  vnode_vtype = λ v. vreg;
  vnode_isrecycled = λ v. v == 7;
  vnode_getparent = λ v. if v == 100 then 101 else 0;
  pointer_at = λ a. 4096;
  is_wired = λ a. true;
  new_object = λ entries. 9;
  vnode_vop_offset = 208;
  offset_descs =
      record { opve_op = vnop_reclaim; offset = 72 }
      ∷ record { opve_op = vnop_read; offset = 80 }
      ∷ [];
}

-- No vector is hooked, and each word of memory holds a function of a driver.
abbrev pub idle : Registry (ℕ → ℕ)
idle = record { table = λ k. 0; entries = λ a. new_entry; words = λ a. fsd a; events = [] }

pub vector_of : (v : ℕ) → get_vnode_op_vector kernel v ≡ 4096
unfolding get_vnode_op_vector
vector_of v = refl

pub eligible : (v : ℕ) → v ≢ 7 → IsEligible kernel v
unfolding get_vnode_op_vector
eligible v ne = record { known = λ e. ground (arith, e); live = ==_ne _ _ ne; interesting = refl }

pub unhookable : (v : ℕ) → IsUnhookable kernel v
unfolding get_vnode_op_vector
unhookable v = record { known = λ e. ground (arith, e); interesting = refl }

pub laid_out : IsLaidOut kernel 4096
unfolding located locate retrieve_offset_desc retrieve_entry_by_desc desc_eq desc_number
    vop_enum_entries vop_hook_entries vop_eq vop_index
laid_out = record { apart = ((refl, tt), (refl, tt), (tt, tt, tt)); wired = (refl, (refl, tt)) }

pub plain : All (λ l. idle.words l.address ≢ vop_not_hooked) (slots kernel 4096)
unfolding located locate retrieve_offset_desc retrieve_entry_by_desc desc_eq desc_number
    vop_enum_entries vop_hook_entries
plain = (λ e. ground (arith, e), (λ e. ground (arith, e), tt))

pub fresh_100 : IsFresh kernel 100 4096 idle
fresh_100 = record {
  valid = tt;
  missing = refl;
  allocated = λ e. ground (arith, e);
  inserted = refl;
}
