-- ===== src/FakeFsd/Recorded.antt =====
-- The offsets that the search of a candidate vector writes into the array.
use mathlib.Core.Option.{none-ne-some, some-injective}
use mathlib.Core.Path.{subst}
use mac_osx_file_system_filt.Base.{
  arith, ◌≢◌, ◌<◌, ◌≤◌, count_from, ℕ, zero, suc, ◌+◌, ◌*◌, ◌%◌, ◌^◌, ◌≡◌, ◌⊎◌, inl, inr, refl, ◌∙◌,
  List, some, Bool, true, false, ◌==◌, not, ◌&&◌, Bool-cases, Option-cases, sym,
}
use mac_osx_file_system_filt.FakeFsd.{
  FakeFsdFunction, retrieve_offset_desc_by_fake_op, retrieve_entry_by_fake_op, fake_vnodeop_entries,
  fake_number, offset_entry, vn_default_error,
}
use mac_osx_file_system_filt.FakeFsd.Hits.{is_hit, HaveSameEntries, scan-HaveSameEntries, scan-hits}
use mac_osx_file_system_filt.FakeFsd.Layout.{
  vop_search, Memory, Scan, scan, scan_one, hit, set_offset-same, set_offset-other, trunc_page,
}
use mac_osx_file_system_filt.FakeFsd.Search.{op_of}
use mac_osx_file_system_filt.VfsHooks.Index.{retrieve_offset_desc-same}
use mac_osx_file_system_filt.Vnop.Desc.{VnodeopDesc, desc_eq, eq_of_desc_eq}
use mac_osx_file_system_filt.Vnop.Tables.{FltVnodeOpvOffsetDesc, retrieve_offset_desc}

by_fake_op-op_of :
    (descs : List FltVnodeOpvOffsetDesc) (f : FakeFsdFunction) (d : FltVnodeOpvOffsetDesc)
    → retrieve_offset_desc_by_fake_op descs f ≡ some d
    → retrieve_offset_desc descs (op_of f) ≡ some d
unfolding retrieve_offset_desc_by_fake_op retrieve_entry_by_fake_op fake_vnodeop_entries fake_number
by_fake_op-op_of descs vn_default_error d h = h
by_fake_op-op_of descs _ d h = h

module _ (k : Memory) (v_op : ℕ) (op : VnodeopDesc) where
  -- The entry of the operation is as before, or holds the offset of a word of the vector that
  -- points to the fake file system's function for this operation.
  abbrev pub IsRecorded : List FltVnodeOpvOffsetDesc → List FltVnodeOpvOffsetDesc → Type 0
  IsRecorded ds ds' =
      (retrieve_offset_desc ds' op ≡ retrieve_offset_desc ds op)
      ⊎ ((i : ℕ) × (f : FakeFsdFunction) × (k.function_at ((v_op + i * 8) % 2 ^ 64) ≡ some f)
          × (op_of f ≡ op)
          × (retrieve_offset_desc ds' op ≡ some (offset_entry op (i * 8))))

  IsRecorded-trans :
      (ds ds' ds'' : List FltVnodeOpvOffsetDesc)
      → IsRecorded ds ds'
      → IsRecorded ds' ds''
      → IsRecorded ds ds''
  IsRecorded-trans ds ds' ds'' p (inr q) = inr q
  IsRecorded-trans ds ds' ds'' (inl p) (inl q) = inl (q ∙ p)
  IsRecorded-trans ds ds' ds'' (inr (i, f, at, same, p)) (inl q) = inr (i, f, at, same, q ∙ p)

  hit-IsRecorded :
      (i : ℕ) (f : FakeFsdFunction) (d : FltVnodeOpvOffsetDesc) (s : Scan)
      → k.function_at ((v_op + i * 8) % 2 ^ 64) ≡ some f
      → retrieve_offset_desc_by_fake_op s.descs f ≡ some d
      → IsRecorded s.descs (hit i d s).1.descs
  unfolding hit
  hit-IsRecorded i f d s at e =
      let found = by_fake_op-op_of s.descs f d e in
      let own = retrieve_offset_desc-same s.descs (op_of f) d found in
      elim (Bool-cases (desc_eq op d.opve_op)) [
        | inl same ↦
            let p = eq_of_desc_eq op d.opve_op same in
            inr (
              i,
              f,
              at,
              sym own ∙ sym p,
              rw (← p) (
                  set_offset-same s.descs op (i * 8) d
                    (subst (λ o. retrieve_offset_desc s.descs o ≡ some d) (sym (p ∙ own)) found)),
            )
        | inr other ↦ inl (set_offset-other s.descs d.opve_op op (i * 8) other)
      ]

  scan_one-IsRecorded : (i : ℕ) (s : Scan) → IsRecorded s.descs (scan_one k v_op i s).1.descs
  unfolding scan_one
  scan_one-IsRecorded i s =
      let func = (v_op + i * 8) % 2 ^ 64 in
      let last = (func + 7) % 2 ^ 64 in
      let leaves = not (trunc_page last == trunc_page v_op) && not (k.is_mapped last) in
      elim (Bool-cases leaves) [
        | inl out ↦ rw out (inl refl)
        | inr on ↦ elim (Option-cases (k.function_at func)) [
          | inl other ↦ rw (scan_one, on, other) (inl refl)
          | inr (f, at) ↦ elim (Option-cases (retrieve_offset_desc_by_fake_op s.descs f)) [
            | inl other ↦ rw (scan_one, on, at, other) (inl refl)
            | inr (d, e) ↦ rw (scan_one, on, at, e) (hit-IsRecorded i f d s at e)
          ]
        ]
      ]

  -- Whatever a candidate vector holds, and whether or not it is accepted, the search of it changes
  -- the entry of an operation only to the offset of a word that points to the function of the fake
  -- file system for this very operation.
  pub scan-IsRecorded : (n i : ℕ) (s : Scan) → IsRecorded s.descs (scan k v_op n i s).descs
  unfolding scan
  scan-IsRecorded zero i s = inl refl
  scan-IsRecorded (suc n) i s =
      let one = scan_one-IsRecorded i s in
      elim (Bool-cases (scan_one k v_op i s).0) [
        | inl stop ↦ rw stop one
        | inr on ↦ rw on (IsRecorded-trans s.descs _ _ one (scan-IsRecorded n (suc i) _))
      ]

-- The state in which a candidate vector is searched.
abbrev pub scan_start : List FltVnodeOpvOffsetDesc → Scan
scan_start descs = record { descs = descs; number_of_hits = 0; v_node_vop_found = false }

module _ (k : Memory) (vnode : ℕ) where
  -- The word at a position of the vnode.
  abbrev candidate : ℕ → ℕ
  candidate j = k.word_at ((vnode + j * 8) % 2 ^ 64)

  -- What holds of an offset that is taken for the one of v_op: it is that of a pointer to mapped
  -- memory, and among the first words there, at most a hundred, seventeen point to functions of the
  -- fake file system that have an entry in the array.
  abbrev pub IsVopOffset : List FltVnodeOpvOffsetDesc → ℕ → ℕ → Type 0
  IsVopOffset descs n offset =
      (j : ℕ) × (j < n)
      × (offset ≡ j * 8)
      × (candidate j ≢ 0)
      × (k.is_mapped (candidate j) ≡ true)
      × ((m : ℕ) × (m ≤ 100) × (count_from (is_hit k (candidate j) descs) m 0 ≡ 17))

  split_test : (w : ℕ) (m : Bool) → (not (w == 0) && w == w && m) ≡ true → (w ≢ 0) × (m ≡ true)
  split_test w m h = ground arith

  IsVopOffset-suc :
      (ds : List FltVnodeOpvOffsetDesc) (n offset : ℕ)
      → IsVopOffset ds n offset
      → IsVopOffset ds (suc n) offset
  IsVopOffset-suc ds n offset (j, small, at, ne, mapped, found) =
      (j, omega (arith, small), at, ne, mapped, found)

  search-IsVopOffset :
      (ds : List FltVnodeOpvOffsetDesc) (n : ℕ) (descs : List FltVnodeOpvOffsetDesc) (offset : ℕ)
      → HaveSameEntries ds descs
      → (vop_search k vnode n descs).0 ≡ some offset
      → IsVopOffset ds n offset
  unfolding vop_search
  search-IsVopOffset ds zero descs offset same h = absurd (none-ne-some offset h)
  search-IsVopOffset ds (suc j) descs offset same h =
      let w = candidate j in
      let s = scan k w 100 0 (scan_start descs) in
      elim (Bool-cases (not (w == 0) && w == w && k.is_mapped w)) [
        | inr bad ↦
            IsVopOffset-suc ds j offset (search-IsVopOffset ds j descs offset same (rw bad at h))
        | inl ok ↦ elim (Bool-cases s.v_node_vop_found) [
          | inl found ↦
              let (ne, mapped) = split_test w (k.is_mapped w) ok in
              let p : some (j * 8) ≡ some offset = rw (ok, found) at h in
              let (m, le, hits) = scan-hits k w ds 100 0 (scan_start descs) same refl found in
              (
                j,
                omega arith,
                sym (some-injective (j * 8) offset p),
                ne,
                mapped,
                (m, le, omega (arith, hits)),
              )
          | inr more ↦
              let after = scan-HaveSameEntries k w ds 100 0 (scan_start descs) same in
              IsVopOffset-suc ds j offset
                (search-IsVopOffset ds j s.descs offset after (rw (ok, more) at h))
        ]
      ]

  -- An offset that the search returns lies below the end at which it started and is that of a
  -- pointer to mapped memory; among the first words there, at most a hundred, exactly seventeen
  -- point to functions of the fake file system that have an entry in the array.
  pub vop_search-IsVopOffset :
      (n : ℕ) (descs : List FltVnodeOpvOffsetDesc) (offset : ℕ)
      → (vop_search k vnode n descs).0 ≡ some offset
      → IsVopOffset descs n offset
  vop_search-IsVopOffset n descs offset h = search-IsVopOffset descs n descs offset (λ f. refl) h
