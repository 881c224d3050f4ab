-- ===== src/Hook/Registry.antt =====
-- The state on which FsdFilter/VNodeHook.cpp works, what it asks of the kernel, and the class
-- FltVnodeHooksHashTable that maps operation vectors to hook entries.
use mac_osx_file_system_filt.Base.{
  ℕ, ◌+◌, ◌-◌, ◌%◌, ◌^◌, Bool, true, false, List, if◌then◌else◌, ◌==◌, update, ◌&&◌, not,
}
use mac_osx_file_system_filt.Hook.Entry.{FltVnodeHookEntry, retain, release}
use mac_osx_file_system_filt.Hook.HashTable.{
  HashTable, GhtStatusCode, ght_ok, ght_already_in_hash, ght_error,
}
use mac_osx_file_system_filt.Vnop.Tables.{VopFunc, FltVnodeOpvOffsetDesc}

-- IOReturn, as far as the filter returns it.
pub data IoReturn : Type 0 where
  return_success return_error return_no_memory return_no_device return_internal_error : IoReturn

abbrev pub is_success : IoReturn → Bool
is_success return_success = true
is_success _ = false

-- enum vtype of the kernel.
pub data Vtype : Type 0 where
  vnon vreg vdir vblk vchr vlnk vsock vfifo vbad vstr vcplx : Vtype

abbrev pub is_vreg : Vtype → Bool
is_vreg vreg = true
is_vreg _ = false

abbrev pub is_vdir : Vtype → Bool
is_vdir vdir = true
is_vdir _ = false

-- A call that takes or gives back an I/O reference on a parent vnode.
pub data VnodeEvent : Type 0 where
  got_parent : ℕ → VnodeEvent
  put_parent : ℕ → VnodeEvent

-- What the kernel answers during a call, and the layout that FltGetVnodeLayout found: the type of
-- a vnode, whether it is recycled, its parent or 0, the pointers in kernel memory, which words
-- are backed by a physical page, the address of a new object or 0, the offset of v_op in a vnode
-- (gVNodeVopOffset), and the offsets of the operations in a vector (gFltVnodeOpvOffsetDesc).
pub record Env : Type 0 where
  pub vnode_vtype : ℕ → Vtype
  pub vnode_isrecycled : ℕ → Bool
  pub vnode_getparent : ℕ → ℕ
  pub pointer_at : ℕ → ℕ
  pub is_wired : ℕ → Bool
  pub new_object : (ℕ → FltVnodeHookEntry) → ℕ
  pub vnode_vop_offset : ℕ
  pub offset_descs : List FltVnodeOpvOffsetDesc

-- FLT_VOP_UNKNOWN_OFFSET
abbrev pub vop_unknown_offset : ℕ
vop_unknown_offset = 2 ^ 64 - 1

-- FltGetVnodeOpVector
unfoldable pub get_vnode_op_vector : Env → ℕ → ℕ
get_vnode_op_vector env vnode =
    if env.vnode_vop_offset == vop_unknown_offset
    then vop_unknown_offset
    else env.pointer_at ((vnode + env.vnode_vop_offset) % 2 ^ 64)

-- The hash table, the entry objects by address, the words of the operation vectors by address,
-- and the parent references taken and given back, the latest first.
pub record Registry (T : Type 0) : Type 0 where
  pub table : T
  pub entries : ℕ → FltVnodeHookEntry
  pub words : ℕ → VopFunc
  pub events : List VnodeEvent

-- A change of the entry object at an address.
abbrev pub modify_entry :
    {T : Type 0} → Registry T → ℕ → (FltVnodeHookEntry → FltVnodeHookEntry) → Registry T
modify_entry r a f = record r { entries = update r.entries a (f (r.entries a)) }

unfoldable pub is_ok : GhtStatusCode → Bool
is_ok ght_ok = true
is_ok ght_already_in_hash = false
is_ok ght_error = false

module _ ⦃g : HashTable⦄ where
  -- FltVnodeHooksHashTable::RetrieveEntry
  unfoldable pub retrieve_entry : Registry g.Table → ℕ → Bool → ℕ × Registry g.Table
  retrieve_entry r v_op reference =
      let e = g.ght_get r.table v_op in
      if not (e == 0) && reference then (e, modify_entry r e retain) else (e, r)

  -- FltVnodeHooksHashTable::AddEntry
  unfoldable pub add_entry : Registry g.Table → ℕ → ℕ → Bool × Registry g.Table
  add_entry r v_op e =
      let (rc, t) = g.ght_insert r.table e v_op in
      if is_ok rc
      then (true, modify_entry (record r { table = t }) e retain)
      else (false, record r { table = t })

  -- FltVnodeHooksHashTable::RemoveEntry
  unfoldable pub remove_entry : Registry g.Table → ℕ → ℕ × Registry g.Table
  remove_entry r v_op = let (e, t) = g.ght_remove r.table v_op in (e, record r { table = t })

-- entry->release(), on the object at an address.
unfoldable pub release_entry : {T : Type 0} → Registry T → ℕ → Registry T
release_entry r e = modify_entry r e release
