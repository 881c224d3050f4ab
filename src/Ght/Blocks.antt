-- ===== src/Ght/Blocks.antt =====
-- The three blocks of a hash table of FsdFilter/CommonHashTable.cpp, from ght_create to ght_finalize.
use mathlib.Core.Option.{some-injective, none-ne-some}
use mac_osx_file_system_filt.Base.{
  ℕ, ◌≡◌, ◌≢◌, ◌⊎◌, inl, inr, refl, sym, ap, ◌∙◌, Bool, true, false, Bool-cases, if◌then◌else◌,
  ◌==◌, ◌&&◌, ◌||◌, List, [], ◌∷◌, Option, none, some,
}
use mac_osx_file_system_filt.Ght.{GhtHashTable}
use mac_osx_file_system_filt.Ght.Table.{
  Kernel, Block, BlockEvent, block_allocated, block_freed, table_block, entries_block, nr_block,
  new_table, size_loop, ght_create,
}

abbrev block_number : Block → ℕ
block_number table_block = 0
block_number entries_block = 1
block_number nr_block = 2

abbrev is_live : Block → List Block → Bool
is_live b [] = false
is_live b (c ∷ cs) = (block_number b == block_number c) || is_live b cs

abbrev drop_block : Block → List Block → List Block
drop_block b [] = []
drop_block b (c ∷ cs) = if block_number b == block_number c then cs else c ∷ drop_block b cs

-- The specification of the allocator: the live blocks after these events, or none where a block is
-- allocated that is live or freed that is not.
abbrev pub blocks_after : List BlockEvent → List Block → Option (List Block)
blocks_after [] live = some live
blocks_after (block_allocated b ∷ events) live =
    let rest = blocks_after events (b ∷ live) in if is_live b live then none else rest
blocks_after (block_freed b ∷ events) live =
    let rest = blocks_after events (drop_block b live) in if is_live b live then rest else none

module _ (kernel : Kernel) (i_size : ℕ) (non_block : Bool) where
  -- A table that is returned has its three blocks.
  pub create-made :
      (t : GhtHashTable)
      → (ght_create kernel i_size non_block).0 ≡ some t
      → ght_create kernel i_size non_block ≡ (
        some (new_table kernel (size_loop 32 i_size 1 1) non_block),
        block_allocated table_block ∷ block_allocated entries_block ∷ block_allocated nr_block ∷ [],
      )
  unfolding ght_create
  create-made t h =
      let n = (size_loop 32 i_size 1 1).0 in
      elim (Bool-cases (kernel.gives_table non_block)) [
        | inr a ↦ absurd (none-ne-some t (sym (rw a refl) ∙ h))
        | inl a ↦ elim (Bool-cases (kernel.gives_entries non_block n)) [
          | inr b ↦ absurd (none-ne-some t (sym (rw (a, b) refl) ∙ h))
          | inl b ↦ elim (Bool-cases (kernel.gives_nr non_block n)) [
            | inr c ↦ absurd (none-ne-some t (sym (rw (a, b, c) refl) ∙ h))
            | inl c ↦ rw (a, b, c) refl
          ]
        ]
      ]

  pub create-table :
      (t : GhtHashTable)
      → (ght_create kernel i_size non_block).0 ≡ some t
      → t ≡ new_table kernel (size_loop 32 i_size 1 1) non_block
  create-table t h = some-injective t _ (sym h ∙ ap (λ r. r.0) (create-made t h))

  -- When one of its three allocations fails, ght_create returns NULL and has freed what it had
  -- allocated, each block once; else it returns a table, and its three blocks are live.
  pub create-blocks :
      let r = ght_create kernel i_size non_block in
      let n = (size_loop 32 i_size 1 1).0 in
      let given =
        kernel.gives_table non_block
        && kernel.gives_entries non_block n
        && kernel.gives_nr non_block n in
      ((given ≡ false) × (r.0 ≡ none) × (blocks_after r.1 [] ≡ some []))
      ⊎ ((given ≡ true)
          × (r.0 ≢ none)
          × (blocks_after r.1 [] ≡ some (nr_block ∷ entries_block ∷ table_block ∷ [])))
  unfolding ght_create
  create-blocks =
      let n = (size_loop 32 i_size 1 1).0 in
      elim (Bool-cases (kernel.gives_table non_block)) [
        | inr a ↦ rw a (inl (refl, refl, refl))
        | inl a ↦ elim (Bool-cases (kernel.gives_entries non_block n)) [
          | inr b ↦ rw (a, b) (inl (refl, refl, refl))
          | inl b ↦ elim (Bool-cases (kernel.gives_nr non_block n)) [
            | inr c ↦ rw (a, b, c) (inl (refl, refl, refl))
            | inl c ↦ rw (a, b, c) (inr (refl, (λ e. none-ne-some _ (sym e)), refl))
          ]
        ]
      ]
