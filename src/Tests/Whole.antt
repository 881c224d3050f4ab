-- ===== src/Tests/Whole.antt =====
-- Examples of the theorems on sequences of hookings and unhookings, with the hash table of
-- FsdFilter/CommonHashTable.cpp and memory for two of its entries.
use mac_osx_file_system_filt.Base.{◌≡◌, refl, false, All, List, [], ◌∷◌, some, arith}
use mac_osx_file_system_filt.Ght.Correct.{Holds}
use mac_osx_file_system_filt.Ght.Create.{create-Holds}
use mac_osx_file_system_filt.Ght.Instance.{ght_table, no_memory_used, pointer_key}
use mac_osx_file_system_filt.Hook.Entry.{new_entry}
use mac_osx_file_system_filt.Hook.HashTable.{HashTable}
use mac_osx_file_system_filt.Hook.Located.{located}
use mac_osx_file_system_filt.Hook.Loop.{locate}
use mac_osx_file_system_filt.Hook.Ops.{flt_get_original_vnode_op}
use mac_osx_file_system_filt.Hook.Refinement.{
  Action, hooking, unhooking, IsAllowed, Represents, perform_all, tally, perform_all-Represents,
}
use mac_osx_file_system_filt.Hook.Registry.{Registry}
use mac_osx_file_system_filt.Tests.{kernel, vector_of, eligible, unhookable, laid_out, plain}
use mac_osx_file_system_filt.Tests.Hash.{
  two_entries, two_entries_free, no_callback, small_table, create_small,
}
use mac_osx_file_system_filt.Tests.Hooking.{read_slot, read_slot-second}
use mac_osx_file_system_filt.VfsHooks.Always.{flt_get_original-perform_all}
use mac_osx_file_system_filt.Vnop.Desc.{desc_eq, desc_number}
use mac_osx_file_system_filt.Vnop.Tables.{
  fsd, vop_enum_entries, vop_hook_entries, retrieve_offset_desc, retrieve_entry_by_desc,
}
use mac_osx_file_system_filt.Vnop.VopEnum.{vop_read}

abbrev chained : HashTable
chained = ght_table two_entries no_callback two_entries_free

-- No vector is hooked, and the table is as ght_create returned it.
abbrev empty : Registry chained.Table
empty = record {
  table = (small_table, no_memory_used);
  entries = λ a. new_entry;
  words = λ a. fsd a;
  events = [];
}

small_table-Holds : Holds small_table no_memory_used two_entries.mac_kalloc (λ k. 0)
small_table-Holds =
    create-Holds two_entries 3 false small_table no_memory_used two_entries_free create_small

empty-Represents : Represents ⦃g = chained⦄ kernel 4096 fsd 0 empty
unfolding located locate retrieve_offset_desc retrieve_entry_by_desc desc_eq desc_number
    vop_enum_entries vop_hook_entries
empty-Represents = record {
  valid = (small_table-Holds.valid, refl);
  outside = λ a out. refl;
  counted = (small_table-Holds.gives (pointer_key 4096), (refl, (refl, tt)));
}

-- Three hookings and two unhookings.
abbrev mixed : List Action
mixed = hooking 100 ∷ hooking 102 ∷ unhooking 7 ∷ hooking 103 ∷ unhooking 100 ∷ []

mixed-IsAllowed : All (IsAllowed kernel 4096) mixed
mixed-IsAllowed = (
  (eligible 100 (omega arith), vector_of 100),
  (
    (eligible 102 (omega arith), vector_of 102),
    (
      (unhookable 7, vector_of 7),
      ((eligible 103 (omega arith), vector_of 103), ((unhookable 100, vector_of 100), tt)),
    ),
  ),
)

perform_all-Represents_example :
    Represents ⦃g = chained⦄ kernel 4096 fsd
      (tally ⦃g = chained⦄ kernel 4096 mixed 0 empty)
      (perform_all ⦃g = chained⦄ kernel mixed empty)
perform_all-Represents_example =
    perform_all-Represents ⦃g = chained⦄ kernel 4096 fsd laid_out plain mixed 0 empty
      mixed-IsAllowed (omega arith) empty-Represents

flt_get_original-perform_all_example :
    (flt_get_original_vnode_op ⦃g = chained⦄ kernel
      (perform_all ⦃g = chained⦄ kernel mixed empty)
      100
      vop_read).0
    ≡ some (fsd 4176)
flt_get_original-perform_all_example =
    flt_get_original-perform_all ⦃g = chained⦄ kernel 4096 fsd laid_out plain mixed 0 empty
      mixed-IsAllowed (omega arith) empty-Represents 1 read_slot 100 read_slot-second
      (vector_of 100)
