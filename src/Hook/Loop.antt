-- ===== src/Hook/Loop.antt =====
-- The loops over gFltVnodeVopHookEntries in FltHookVnodeVop and FltUnHookVnodeVop.
use mac_osx_file_system_filt.Base.{
  ℕ, ◌+◌, ◌%◌, ◌^◌, List, [], ◌∷◌, Option, none, some, if◌then◌else◌, update, ◌&&◌, not,
}
use mac_osx_file_system_filt.Hook.Entry.{
  FltVnodeHookEntry, get_original_vop, set_original_vop, set_original_vop_as_not_hooked, is_hooked,
}
use mac_osx_file_system_filt.Hook.Registry.{Env, Vtype, is_vreg, is_vdir}
use mac_osx_file_system_filt.Vnop.Desc.{VnodeopDesc, vnop_strategy, desc_eq}
use mac_osx_file_system_filt.Vnop.Tables.{
  VopFunc, HookFunction, hook, VnodeopvEntryDesc, retrieve_entry_by_desc, retrieve_offset_desc,
  vop_enum_entries,
}
use mac_osx_file_system_filt.Vnop.VopEnum.{FltVopEnum}

-- (vm_offset_t)v_op + offset
abbrev pub slot : ℕ → ℕ → ℕ
slot v_op offset = (v_op + offset) % 2 ^ 64

-- FltWriteWiredSrcToWiredDst on one function pointer, which lies within a page: nothing is
-- written where the destination has no physical page.
unfoldable pub write_wired : Env → (ℕ → VopFunc) → ℕ → VopFunc → ℕ → VopFunc
write_wired env words dst f = if env.is_wired dst then update words dst f else words

-- The offset descriptor and the enumerator of an operation; `none` where the loop continues with
-- the next entry.
unfoldable pub locate : Env → ℕ → VnodeopDesc → Option (ℕ × FltVopEnum)
locate env v_op op = elim (retrieve_offset_desc env.offset_descs op) [
  | none ↦ none
  | some offset_desc ↦ elim (retrieve_entry_by_desc vop_enum_entries offset_desc.opve_op) [
    | none ↦ none
    | some enum_desc ↦ some (slot v_op offset_desc.offset, enum_desc.opve_impl)
  ]
]

-- One round of the hooking loop, on the new entry and the words of the vectors.
unfoldable pub hook_one :
    Env
    → ℕ
    → Vtype
    → VnodeopvEntryDesc HookFunction
    → FltVnodeHookEntry × (ℕ → VopFunc)
    → FltVnodeHookEntry × (ℕ → VopFunc)
hook_one env v_op vtype d (e, words) = elim (locate env v_op d.opve_op) [
  | none ↦ (e, words)
  | some (a, indx) ↦
      if not (is_vreg vtype) && not (is_vdir vtype) && desc_eq vnop_strategy d.opve_op
      then (set_original_vop_as_not_hooked e indx, words)
      else (set_original_vop e indx (words a), write_wired env words a (hook d.opve_impl))
]

unfoldable pub hook_loop :
    Env
    → ℕ
    → Vtype
    → List (VnodeopvEntryDesc HookFunction)
    → FltVnodeHookEntry × (ℕ → VopFunc)
    → FltVnodeHookEntry × (ℕ → VopFunc)
hook_loop env v_op vtype [] st = st
hook_loop env v_op vtype (d ∷ ds) st = hook_loop env v_op vtype ds (hook_one env v_op vtype d st)

-- One round of the unhooking loop: the original function is restored.
unfoldable pub unhook_one :
    Env → ℕ → FltVnodeHookEntry → VnodeopvEntryDesc HookFunction → (ℕ → VopFunc) → ℕ → VopFunc
unhook_one env v_op e d words = elim (locate env v_op d.opve_op) [
  | none ↦ words
  | some (a, indx) ↦
      if is_hooked e indx then write_wired env words a (get_original_vop e indx) else words
]

unfoldable pub unhook_loop :
    Env
    → ℕ
    → FltVnodeHookEntry
    → List (VnodeopvEntryDesc HookFunction)
    → (ℕ → VopFunc)
    → ℕ
    → VopFunc
unhook_loop env v_op e [] words = words
unhook_loop env v_op e (d ∷ ds) words = unhook_loop env v_op e ds (unhook_one env v_op e d words)
