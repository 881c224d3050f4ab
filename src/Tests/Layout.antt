-- ===== src/Tests/Layout.antt =====
-- Examples of the theorems on the layout of vnodes and mounts.
use mac_osx_file_system_filt.Base.{
  ℕ, ◌*◌, ◌%◌, ◌≤◌, ◌<◌, ◌≡◌, ◌⊎◌, refl, none, some, [], ◌∷◌, true, if◌then◌else◌, ◌==◌, arith,
}
use mac_osx_file_system_filt.FakeFsd.{no_error}
use mac_osx_file_system_filt.FakeFsd.DataSearch.{
  v_data1, v_data2, crosses_to_unmapped, search_failed, data_search, v_node_header_size, IsData,
  IsNeither, v_node_header_size-IsData,
}
use mac_osx_file_system_filt.FakeFsd.DataFailure.{IsBarred, v_node_header_size-failed}
use mac_osx_file_system_filt.FakeFsd.FunctionAt.{
  Disassembler, decres_success, dd_is_function_at_kernel_address, dd_is_function-mapped,
}
use mac_osx_file_system_filt.FakeFsd.Layout.{Memory}
use mac_osx_file_system_filt.FakeFsd.Lifecycle.{FsdEnv, flt_fake_fsd_reclaim}
use mac_osx_file_system_filt.FakeFsd.MountLayout.{VfsLayout, flt_get_mount_layout}
use mac_osx_file_system_filt.FakeFsd.Vfs.{
  LeadsToVector, flt_get_vfs_operation_desc, vfs_operation_descs, vfs_op_unmount,
  flt_get_vfs_operations-found,
}
use mac_osx_file_system_filt.FakeFsd.VnodeLayout.{
  LayoutEnv, LayoutState, flt_get_vnode_layout, flt_get_vnode_layout-count,
}
use mac_osx_file_system_filt.Hook.Registry.{return_success, return_error, vop_unknown_offset}
use mac_osx_file_system_filt.VmPmap.{page_size}

-- Two vnodes with their data in the third word; every page is mapped.
abbrev with_data : Memory
with_data = record {
  word_at = λ a. if a == 65552 then v_data1 else if a == 131088 then v_data2 else 8192;
  function_at = λ a. none;
  is_mapped = λ a. true;
}

finds_data : v_node_header_size with_data 65536 131072 ≡ some 16
unfolding v_node_header_size data_search search_failed crosses_to_unmapped
finds_data = refl

v_node_header_size-IsData_example :
    IsData with_data 65536 131072 16
    × (0 < 16)
    × (16 < page_size)
    × (16 % 8 ≡ 0)
    × ((j : ℕ) → (16 ≤ j * 8) ⊎ IsNeither with_data 65536 131072 j)
v_node_header_size-IsData_example = v_node_header_size-IsData with_data 65536 131072 16 finds_data

finds_nothing : v_node_header_size with_data 262144 327680 ≡ none
unfolding v_node_header_size data_search search_failed crosses_to_unmapped
finds_nothing = refl

v_node_header_size-failed_example :
    IsData with_data 262144 327680 0
    ⊎ ((j : ℕ) × (0 < j)
        × IsBarred with_data 262144 327680 j
        × ((x : ℕ) → (j ≤ x) ⊎ IsNeither with_data 262144 327680 x))
v_node_header_size-failed_example = v_node_header_size-failed with_data 262144 327680 finds_nothing

abbrev no_layout : VfsLayout
no_layout = record { vector_offset = vop_unknown_offset; unmount_offset = vop_unknown_offset }

flt_get_vfs_operations-found_example :
    let r = flt_get_mount_layout with_data (λ a. true) 16 (196608 ∷ []) no_layout in
    ((r.0 ≡ return_error) × (r.1 ≡ no_layout))
    ⊎ ((r.0 ≡ return_success)
        × LeadsToVector with_data (λ a. true) 16 (196608 ∷ []) r.1
        × (flt_get_vfs_operation_desc (vfs_operation_descs r.1) vfs_op_unmount
            ≡ some (record { operation = vfs_op_unmount; offset = 16 })))
flt_get_vfs_operations-found_example =
    flt_get_vfs_operations-found with_data (λ a. true) 16 (196608 ∷ []) no_layout refl

-- Each place holds a function.
abbrev push_and_mov : Disassembler
push_and_mov = λ address length most. (decres_success, most, λ i. if i == 0 then 0x2 else 0x2a)

dd_is_function-mapped_example :
    let (res, count, opcode) = push_and_mov 4000 100 15 in
    (with_data.is_mapped 4099 ≡ true) × (15 ≤ count) × (opcode 0 ≡ 0x2) × (opcode 1 ≡ 0x2a)
unfolding dd_is_function_at_kernel_address
dd_is_function-mapped_example =
    dd_is_function-mapped with_data push_and_mov 4000 refl (λ a b same. refl) (omega arith) 99
      (omega arith)

-- A kernel that creates the two vnodes.
abbrev creating : ℕ → FsdEnv
creating v = record {
  vfs_fsadd = (no_error, 7);
  vfs_fsremove = λ h. no_error;
  vnode_create = (no_error, v);
}

abbrev pub layout_env : LayoutEnv
layout_env = record {
  first = creating 65536;
  second = creating 131072;
  memory = with_data;
  distorm_decompose64 = push_and_mov;
  unmount = 16;
  mounts = 196608 ∷ [];
  vnode_put = λ v s. (flt_fake_fsd_reclaim s).1;
}

abbrev pub before_layout : LayoutState
before_layout = record {
  fsd = record { vnode_count = 0; fsd_handle = 0 };
  descs = [];
  v_node_vop_offset = vop_unknown_offset;
  vfs = no_layout;
}

flt_get_vnode_layout-count_example :
    (flt_get_vnode_layout layout_env before_layout).1.fsd.vnode_count ≡ 0
flt_get_vnode_layout-count_example =
    flt_get_vnode_layout-count layout_env (λ v s. refl) (omega arith) (omega arith) before_layout
      (omega arith)
