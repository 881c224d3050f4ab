-- ===== src/Tests/Hooking.antt =====
-- Examples of the theorems on the hook registry, the hooks and the callback.
use mac_osx_file_system_filt.Base.{
  ℕ, ◌≡◌, ◌⊎◌, refl, [], ◌∷◌, true, false, some, none, arith, get_elem?,
}
use mac_osx_file_system_filt.Hook.Balance.{
  unhook_each-hook_each, hook_each-fresh, hook_each, unhook_each,
}
use mac_osx_file_system_filt.Hook.Guards.{flt_hook_vnode_vop_failed, Refusal}
use mac_osx_file_system_filt.Hook.Room.{LooksSame}
use mac_osx_file_system_filt.Hook.Located.{Located, located}
use mac_osx_file_system_filt.Hook.Loop.{locate}
use mac_osx_file_system_filt.Hook.Ops.{flt_hook_vnode_vop}
use mac_osx_file_system_filt.Hook.Registry.{Registry, get_vnode_op_vector}
use mac_osx_file_system_filt.Hook.Vector.{IsHooked, slots}
use mac_osx_file_system_filt.Kauth.{vnode_authorize_callback, kauth_result_defer}
use mac_osx_file_system_filt.Kauth.Filtering.{
  vnode_authorize_callback_lem, vnode_authorize_callback-IsHooked,
}
use mac_osx_file_system_filt.Tests.{
  unhookable, kernel, idle, vector_of, eligible, laid_out, plain, fresh_100, map_table,
}
use mac_osx_file_system_filt.VfsHooks.{Call, VnopArgs, run_hook}
use mac_osx_file_system_filt.VfsHooks.Transparent.{run_hook_lem, run_hook-unhooked}
use mac_osx_file_system_filt.Vnop.Desc.{desc_eq, desc_number}
use mac_osx_file_system_filt.Vnop.Tables.{
  fsd, null_func, vop_not_hooked, hook, vnop_read_hook, retrieve_offset_desc,
  retrieve_entry_by_desc, vop_enum_entries, vop_hook_entries,
}
use mac_osx_file_system_filt.Vnop.VopEnum.{vop_read}

-- Two vnodes are hooked, and two unhooked, one of which is recycled.
unhook_each-hook_each_example :
    let s = unhook_each kernel (102 ∷ 7 ∷ []) (hook_each kernel (100 ∷ 102 ∷ []) idle) in
    ((a : ℕ) → s.words a ≡ fsd a) × (s.table 4096 ≡ 0) × ((s.entries 9).retain_count ≡ 0)
unhook_each-hook_each_example =
    unhook_each-hook_each kernel 4096 100 (102 ∷ []) 102 (7 ∷ []) idle
      (
        (eligible 100 (omega arith), vector_of 100),
        ((eligible 102 (omega arith), vector_of 102), tt),
      )
      ((unhookable 102, vector_of 102), ((unhookable 7, vector_of 7), tt)) refl (omega arith)
      laid_out fresh_100 plain

-- The vector counts three vnodes, the first of which is 100; the word at 0 and another vector stay.
hook_each-fresh_example :
    let s = hook_each kernel (100 ∷ 102 ∷ 103 ∷ []) idle in
    IsHooked kernel 4096 fsd 3 s × (s.words 0 ≡ fsd 0) × (s.table 5 ≡ 0)
unfolding located locate retrieve_offset_desc retrieve_entry_by_desc desc_eq desc_number
    vop_enum_entries vop_hook_entries
hook_each-fresh_example =
    hook_each-fresh kernel 4096 100 (102 ∷ 103 ∷ []) idle
      (
        (eligible 100 (omega arith), vector_of 100),
        (
          (eligible 102 (omega arith), vector_of 102),
          ((eligible 103 (omega arith), vector_of 103), tt),
        ),
      )
      (omega arith) laid_out fresh_100 0 (refl, (refl, tt)) 5 (omega arith)

-- The recycled vnode 7 is refused.
flt_hook_vnode_vop_failed_example :
    Refusal kernel idle 7 (flt_hook_vnode_vop kernel idle 7).0
    × ((flt_hook_vnode_vop kernel idle 7).1 ≡ none)
    × LooksSame idle (flt_hook_vnode_vop kernel idle 7).2
unfolding flt_hook_vnode_vop get_vnode_op_vector
flt_hook_vnode_vop_failed_example =
    flt_hook_vnode_vop_failed kernel idle 7 tt (λ e. ground (arith, e))

vnode_authorize_callback_lem_example :
    ((vnode_authorize_callback kernel idle 7).0 ≡ kauth_result_defer)
    × (((vnode_authorize_callback kernel idle 7).1 ≡ idle)
        ⊎ ((true ≡ false)
            × (false ≡ false)
            × ((vnode_authorize_callback kernel idle 7).1.events ≡ [])))
vnode_authorize_callback_lem_example = vnode_authorize_callback_lem kernel idle 7

vnode_authorize_callback-IsHooked_example :
    IsHooked kernel 4096 fsd 2 (vnode_authorize_callback kernel idle 100).1
    × ((vnode_authorize_callback kernel idle 100).1.words 0 ≡ fsd 0)
unfolding located locate retrieve_offset_desc retrieve_entry_by_desc desc_eq desc_number
    vop_enum_entries vop_hook_entries
vnode_authorize_callback-IsHooked_example =
    vnode_authorize_callback-IsHooked kernel idle 100 4096 101 refl (omega arith)
      (eligible 100 (omega arith)) (eligible 101 (omega arith)) (vector_of 100) (vector_of 101)
      laid_out fresh_100 0 (refl, (refl, tt))

-- The call of a driver's function gives its address.
abbrev answer : Call
answer f args r = (elim f [ null_func ↦ 0 | vop_not_hooked ↦ 0 | hook h ↦ 0 | fsd a ↦ a ], r)

-- A read of the vnode 100.
abbrev read_args : VnopArgs
read_args = record { ap = 500; a_vp = 100; a_dvp = 0; a_fvp = 0 }

abbrev pub read_slot : Located
read_slot = record { address = 4176; indx = vop_read; function = vnop_read_hook }

abbrev hooked : Registry (ℕ → ℕ)
hooked = hook_each kernel (100 ∷ 102 ∷ 103 ∷ []) idle

pub read_slot-second : get_elem? (slots kernel 4096) 1 ≡ some read_slot
unfolding located locate retrieve_offset_desc retrieve_entry_by_desc desc_eq desc_number
    vop_enum_entries vop_hook_entries
read_slot-second = refl

hooked-IsHooked : IsHooked kernel 4096 fsd 3 hooked
unfolding located locate retrieve_offset_desc retrieve_entry_by_desc desc_eq desc_number
    vop_enum_entries vop_hook_entries
hooked-IsHooked =
    (hook_each-fresh kernel 4096 100 (102 ∷ 103 ∷ []) idle
      (
        (eligible 100 (omega arith), vector_of 100),
        (
          (eligible 102 (omega arith), vector_of 102),
          ((eligible 103 (omega arith), vector_of 103), tt),
        ),
      )
      (omega arith) laid_out fresh_100 0 (refl, (refl, tt)) 5 (omega arith)).0

-- A read through the hooked slot calls the driver's function at 4176.
run_hook_lem_example :
    (s : Registry (ℕ → ℕ)) × (hooked.words 4176 ≡ hook vnop_read_hook)
    × (run_hook answer kernel read_args hooked vnop_read_hook ≡ some (4176, s))
    × IsHooked kernel 4096 fsd 3 s
    × (s.words ≡ hooked.words)
    × (s.table ≡ hooked.table)
run_hook_lem_example =
    run_hook_lem answer kernel read_args hooked 4096 1 read_slot read_slot-second (vector_of 100)
      fsd 3 hooked-IsHooked

-- The same hook, where the vector is not in the table any more.
run_hook-unhooked_example : run_hook answer kernel read_args idle vnop_read_hook ≡ some (4176, idle)
run_hook-unhooked_example =
    run_hook-unhooked answer kernel read_args idle 4096 1 read_slot read_slot-second (vector_of 100)
      refl
