-- ===== src/VfsHooks/Index.antt =====
-- The index of each hook, and the slot that belongs to it.
use mac_osx_file_system_filt.Base.{
  arith, ℕ, ◌≡◌, refl, List, [], ◌∷◌, none, some, All, Option-cases, inl, inr, Bool-cases,
}
use mac_osx_file_system_filt.Hook.HashTable.{HashTable}
use mac_osx_file_system_filt.Hook.Located.{Located, located, located-none, located-some}
use mac_osx_file_system_filt.Hook.Loop.{locate, slot}
use mac_osx_file_system_filt.Hook.Ops.{current_vnode_op}
use mac_osx_file_system_filt.Hook.Registry.{Env, Registry, get_vnode_op_vector}
use mac_osx_file_system_filt.Hook.Vector.{slots}
use mac_osx_file_system_filt.Vnop.Desc.{VnodeopDesc, desc_eq, desc_number, eq_of_desc_eq}
use mac_osx_file_system_filt.Vnop.Tables.{
  HookFunction, fsd_reclaim_hook, vnop_read_hook, vnop_open_hook, vnop_write_hook, vnop_pagein_hook,
  vnop_pageout_hook, vnop_lookup_hook, vnop_create_hook, vnop_close_hook, vnop_inactive_hook,
  vnop_rename_hook, vnop_exchange_hook, FltVnodeOpvOffsetDesc, retrieve_offset_desc,
  VnodeopvEntryDesc, entry, vop_hook_entries, vop_enum_entries, retrieve_entry_by_desc,
  retrieve_entry_by_enum,
}
use mac_osx_file_system_filt.Vnop.VopEnum.{
  FltVopEnum, vop_index, vop_eq, vop_lookup, vop_create, vop_open, vop_close, vop_inactive,
  vop_reclaim, vop_read, vop_write, vop_pagein, vop_pageout, vop_rename, vop_exchange,
}

-- The index by which each hook asks for its original function.
abbrev pub hook_index : HookFunction → FltVopEnum
hook_index fsd_reclaim_hook = vop_reclaim
hook_index vnop_read_hook = vop_read
hook_index vnop_open_hook = vop_open
hook_index vnop_write_hook = vop_write
hook_index vnop_pagein_hook = vop_pagein
hook_index vnop_pageout_hook = vop_pageout
hook_index vnop_lookup_hook = vop_lookup
hook_index vnop_create_hook = vop_create
hook_index vnop_close_hook = vop_close
hook_index vnop_inactive_hook = vop_inactive
hook_index vnop_rename_hook = vop_rename
hook_index vnop_exchange_hook = vop_exchange

-- Both searches of the array of enumerators lead from this entry to its hook's index.
abbrev IsIndexed : VnodeopvEntryDesc HookFunction → Type 0
IsIndexed d =
    (retrieve_entry_by_desc vop_enum_entries d.opve_op
      ≡ some (entry d.opve_op (hook_index d.opve_impl)))
    × (retrieve_entry_by_enum vop_enum_entries (hook_index d.opve_impl)
        ≡ some (entry d.opve_op (hook_index d.opve_impl)))

vop_hook_entries-IsIndexed : All IsIndexed vop_hook_entries
unfolding vop_hook_entries vop_enum_entries retrieve_entry_by_desc retrieve_entry_by_enum desc_eq
    desc_number vop_eq vop_index
vop_hook_entries-IsIndexed = (
  (refl, refl),
  (
    (refl, refl),
    (
      (refl, refl),
      (
        (refl, refl),
        (
          (refl, refl),
          (
            (refl, refl),
            (
              (refl, refl),
              ((refl, refl), ((refl, refl), ((refl, refl), ((refl, refl), ((refl, refl), tt))))),
            ),
          ),
        ),
      ),
    ),
  ),
)

-- A descriptor that the search finds is the one that was searched for.
pub retrieve_offset_desc-same :
    (es : List FltVnodeOpvOffsetDesc) (op : VnodeopDesc) (d : FltVnodeOpvOffsetDesc)
    → retrieve_offset_desc es op ≡ some d
    → d.opve_op ≡ op
unfolding retrieve_offset_desc
retrieve_offset_desc-same [] op d h = ground arith
retrieve_offset_desc-same (e ∷ es) op d h = elim (Bool-cases (desc_eq op e.opve_op)) [
  | inl hit ↦
      let same : some e ≡ some d = rw (hit) at h in
      ground (arith, eq_of_desc_eq op e.opve_op hit, same)
  | inr miss ↦ retrieve_offset_desc-same es op d (rw miss at h)
]

module _ (env : Env) (v_op : ℕ) where
  module _ (d : VnodeopvEntryDesc HookFunction) (ok : IsIndexed d) where
    locate-missing :
        retrieve_offset_desc env.offset_descs d.opve_op ≡ none → locate env v_op d.opve_op ≡ none
    unfolding locate
    locate-missing e = rw (locate, e)

    locate-present :
        (o : FltVnodeOpvOffsetDesc)
        → retrieve_offset_desc env.offset_descs d.opve_op ≡ some o
        → locate env v_op d.opve_op ≡ some (slot v_op o.offset, hook_index d.opve_impl)
    unfolding locate
    locate-present o e =
        rw (locate, e, retrieve_offset_desc-same env.offset_descs d.opve_op o e, ok.0)

    current_vnode_op-present :
        ⦃g : HashTable⦄ (o : FltVnodeOpvOffsetDesc)
        → retrieve_offset_desc env.offset_descs d.opve_op ≡ some o
        → (r : Registry g.Table) (vnode : ℕ) → get_vnode_op_vector env vnode ≡ v_op
        → current_vnode_op env r vnode (hook_index d.opve_impl)
          ≡ some (r.words (slot v_op o.offset))
    unfolding current_vnode_op
    current_vnode_op-present o e r vnode same = rw (current_vnode_op, ok.1, e, same)

  -- The slot has its hook's index, and holds what the lookup in the vector finds for the index.
  pub record IsPlaced ⦃g : HashTable⦄ (l : Located) : Type 0 where
    pub index : l.indx ≡ hook_index l.function
    pub current :
        (r : Registry g.Table) (vnode : ℕ)
        → get_vnode_op_vector env vnode ≡ v_op
        → current_vnode_op env r vnode l.indx ≡ some (r.words l.address)

  located-IsPlaced :
      ⦃g : HashTable⦄ (ds : List (VnodeopvEntryDesc HookFunction))
      → All IsIndexed ds
      → All IsPlaced (located env v_op ds)
  unfolding located
  located-IsPlaced [] _ = tt
  located-IsPlaced (d ∷ ds) (ok, oks) =
      elim (Option-cases (retrieve_offset_desc env.offset_descs d.opve_op)) [
        | inl missing ↦
            rw (located-none env v_op d ds (locate-missing d ok missing)) (located-IsPlaced ds oks)
        | inr (o, present) ↦ rw (located-some env v_op d ds _ _ (locate-present d ok o present)) (
          record { index = refl; current = current_vnode_op-present d ok o present },
          located-IsPlaced ds oks,
        )
      ]

  pub slots-IsPlaced : ⦃g : HashTable⦄ → All IsPlaced (slots env v_op)
  slots-IsPlaced = located-IsPlaced vop_hook_entries vop_hook_entries-IsIndexed
