-- ===== src/Tests/Platform.antt =====
-- Examples of the theorems on the driver, the fake file system and the copy.
use mac_osx_file_system_filt.Base.{
  ◌-◌, ◌/◌, get_elem?, List, if◌then◌else◌, ◌==◌, ℕ, ◌+◌, ◌*◌, ◌%◌, ◌^◌, ◌≤◌, ◌<◌, ◌≡◌, ◌≢◌, refl,
  [], ◌∷◌, true, false, some, none, arith, Bool, leb, ◌&&◌,
}
use mac_osx_file_system_filt.Driver.{ComFsdFilter, StartEnv, Started, start, start_lem}
use mac_osx_file_system_filt.FakeFsd.{
  no_error, fake_read, fake_lookup, fake_create, fake_whiteout, fake_mknod, fake_open, fake_close,
  fake_access, fake_inactive, fake_reclaim, fake_write, fake_pagein, fake_pageout, fake_strategy,
  fake_mmap, fake_rename, fake_pathconf, FakeFsdFunction, fake_vnodeop_entries, fake_number,
  retrieve_entry_by_fake_op, vn_default_error, vnode_opv_offset_descs,
  retrieve_offset_desc_by_fake_op,
}
use mac_osx_file_system_filt.FakeFsd.Lifecycle.{FsdEnv, FakeFsdState}
use mac_osx_file_system_filt.FakeFsd.Layout.{Memory, scan, vop_search, scan_one, hit, set_offset}
use mac_osx_file_system_filt.FakeFsd.Recorded.{
  IsVopOffset, vop_search-IsVopOffset, IsRecorded, scan-IsRecorded, scan_start,
}
use mac_osx_file_system_filt.Tests.Layout.{layout_env, before_layout}
use mac_osx_file_system_filt.FakeFsd.Search.{hooks_of, slots-hooks}
use mac_osx_file_system_filt.Hook.Registry.{vop_unknown_offset, Env}
use mac_osx_file_system_filt.Hook.Vector.{slots}
use mac_osx_file_system_filt.Kauth.{
  GateEnv, Registered, with_callback_registration, with_callback_registration_lem,
}
use mac_osx_file_system_filt.Tests.{kernel, map_table, idle}
use mac_osx_file_system_filt.VmPmap.{
  Pmap, page_size, flt_virt_to_phys, flt_write_wired_src_to_wired_dst,
}
use mac_osx_file_system_filt.VmPmap.Copy.{
  flt_write_wired-mapped, flt_write_wired-invariant, flt_write_wired-word,
}
use mac_osx_file_system_filt.Vnop.Desc.{VnodeopDesc, vnop_read, desc_number}
use mac_osx_file_system_filt.Vnop.Desc.{desc_eq}
use mac_osx_file_system_filt.Vnop.Tables.{
  retrieve_offset_desc, fsd_reclaim_hook, vnop_read_hook, vnop_open_hook, vnop_write_hook,
  vnop_pagein_hook, vnop_pageout_hook, vnop_lookup_hook, vnop_create_hook, vnop_close_hook,
  vnop_inactive_hook, vnop_rename_hook, vop_hook_entries,
}
use mac_osx_file_system_filt.VersionDependent.{
  YosemiteKernel, yosemite_offset_descs, functions_of, addresses_of, slots_of, Gets, slots-yosemite,
}

-- A kernel that grants everything.
abbrev granting : GateEnv
granting = record { new_gate = 11; super_init = true; kauth_listen_scope = 12 }

with_callback_registration_lem_example :
    let (result, object) = with_callback_registration granting 10 in
    Registered granting 10 result object
with_callback_registration_lem_example = with_callback_registration_lem granting 10

abbrev start_env : StartEnv
start_env = record {
  layout = layout_env;
  table = record { new_table = 13; io_rw_lock_alloc = 14 };
  gate = granting;
}

abbrev loaded : ComFsdFilter (ℕ → ℕ)
loaded = record {
  layout = before_layout;
  s_vnode_hooks_hash_table = none;
  g_vnode_gate = none;
  instance_set = false;
  is_registered = false;
  retain_count = 1;
}

start_lem_example :
    Started start_env 10 loaded (start start_env 10 loaded).0 (start start_env 10 loaded).1
start_lem_example = start_lem start_env 10 loaded refl

abbrev offset_of : VnodeopDesc → ℕ
offset_of d = 8 * desc_number d

abbrev built : Env
built = record kernel { offset_descs = vnode_opv_offset_descs offset_of }

slots-hooks_example :
    hooks_of (slots built 4096)
    ≡ fsd_reclaim_hook ∷ vnop_read_hook ∷ vnop_open_hook ∷ vnop_write_hook ∷ vnop_pagein_hook
      ∷ vnop_pageout_hook ∷ vnop_lookup_hook ∷ vnop_create_hook ∷ vnop_close_hook
      ∷ vnop_inactive_hook ∷ vnop_rename_hook ∷ []
slots-hooks_example = slots-hooks built 4096 offset_of refl

-- Descriptors whose vdesc_offset is their number.
abbrev yosemite : YosemiteKernel
yosemite = record {
  vnode_at = λ a. record { v_op = 4096; v_name = 0 };
  mount_at = λ a. record { mnt_vtable = 0 };
  vfstable_at = λ a. record { vfc_vfsflags = 0 };
  vdesc_offset = desc_number;
  vnode_mount = λ a. 0;
}

slots-yosemite_example :
    let env = record kernel { offset_descs = yosemite_offset_descs yosemite } in
    (hooks_of (slots env 4096) ≡ functions_of vop_hook_entries)
    × (addresses_of (slots env 4096) ≡ slots_of yosemite 4096 vop_hook_entries)
    × Gets yosemite idle.words 7 vop_hook_entries
slots-yosemite_example =
    slots-yosemite yosemite (record kernel { offset_descs = yosemite_offset_descs yosemite })
      idle.words 7 refl

abbrev fsd_env : FsdEnv
fsd_env = record {
  vfs_fsadd = (no_error, 20);
  vfs_fsremove = λ h. no_error;
  vnode_create = (no_error, 21);
}

abbrev unregistered : FakeFsdState
unregistered = record { vnode_count = 2; fsd_handle = 0 }

-- Every page is mapped to the same physical page; the memory is the number of bytes copied.
abbrev pmap : Pmap ℕ
pmap = record { pmap_find_phys = λ a. 3; bcopy_phys = λ s d n m. m + n }

mapped : (start len i : ℕ) → i < len → flt_virt_to_phys pmap ((start + i) % 2 ^ 64) ≢ 0
unfolding flt_virt_to_phys
mapped start len i small e = omega (arith, e)

flt_write_wired-mapped_example : (flt_write_wired_src_to_wired_dst pmap 5000 8190 100 0).0 ≡ 100
flt_write_wired-mapped_example =
    flt_write_wired-mapped pmap 5000 8190 100 0 (omega arith) (omega arith) (omega arith)
      (mapped 5000 100) (mapped 8190 100)

-- The memory is a flag that no copy has left a page of the destination.
abbrev watched : Pmap Bool
watched = record {
  pmap_find_phys = λ a. 3;
  bcopy_phys = λ s d n ok. leb (d % page_size + n) page_size && ok;
}

stays : (e n : ℕ) (ok : Bool) → e + n ≤ page_size → ok ≡ true → (leb (e + n) page_size && ok) ≡ true
stays e n ok small h = ground arith

flt_write_wired-invariant_example :
    (flt_write_wired_src_to_wired_dst watched 5000 8190 100 true).1 ≡ true
flt_write_wired-invariant_example =
    flt_write_wired-invariant watched (λ ok. ok ≡ true)
      (λ s d n ok pos in_src in_dst h. stays (d % page_size) n ok in_dst h) 5000 8190 100 true refl

flt_write_wired-word_example : flt_write_wired_src_to_wired_dst pmap 5000 8000 8 0 ≡ (8, 8)
unfolding flt_virt_to_phys
flt_write_wired-word_example = flt_write_wired-word pmap 5000 8000 0 (omega arith) (omega arith)

-- The functions of the fake file system in a vector at 8192, to which the second word of the vnode
-- at 4096 points.
abbrev vector : List FakeFsdFunction
vector =
    vn_default_error ∷ fake_lookup ∷ fake_create ∷ fake_whiteout ∷ fake_mknod ∷ fake_open
    ∷ fake_close ∷ fake_access ∷ fake_inactive ∷ fake_reclaim ∷ fake_read ∷ fake_write ∷ fake_pagein
    ∷ fake_pageout ∷ fake_strategy ∷ fake_mmap ∷ fake_rename ∷ fake_pathconf ∷ []

abbrev memory : Memory
memory = record {
  word_at = λ a. if a == 4104 then 8192 else 0;
  function_at = λ a. get_elem? vector ((a - 8192) / 8);
  is_mapped = λ a. true;
}

scan-IsRecorded_example :
    IsRecorded memory 8192 vnop_read
      (vnode_opv_offset_descs offset_of)
      (scan memory 8192 100 0 (scan_start (vnode_opv_offset_descs offset_of))).descs
scan-IsRecorded_example =
    scan-IsRecorded memory 8192 vnop_read 100 0 (scan_start (vnode_opv_offset_descs offset_of))

unknown_offsets-found :
    (vop_search memory 4096 3 (vnode_opv_offset_descs (λ d. vop_unknown_offset))).0 ≡ some 8
unfolding vop_search scan scan_one hit set_offset retrieve_offset_desc_by_fake_op
    retrieve_entry_by_fake_op fake_vnodeop_entries fake_number vnode_opv_offset_descs
    retrieve_offset_desc desc_eq desc_number
unknown_offsets-found = refl

vop_search-IsVopOffset_example :
    IsVopOffset memory 4096 (vnode_opv_offset_descs (λ d. vop_unknown_offset)) 3 8
vop_search-IsVopOffset_example =
    vop_search-IsVopOffset memory 4096 3 (vnode_opv_offset_descs (λ d. vop_unknown_offset)) 8
      unknown_offsets-found
