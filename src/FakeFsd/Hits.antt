-- ===== src/FakeFsd/Hits.antt =====
-- How many hits the search of a candidate vector in FltGetVnodeLayout (FsdFilter/FltFakeFSD.cpp)
-- has counted when it accepts the vector.
use mac_osx_file_system_filt.Base.{
  arith, ℕ, zero, suc, ◌+◌, ◌*◌, ◌%◌, ◌^◌, ◌≤◌, ◌≡◌, ◌⊎◌, inl, inr, refl, ap, sym, ◌∙◌, List, [],
  ◌∷◌, Option, none, some, Bool, true, false, ◌==◌, not, ◌&&◌, Bool-cases, Option-cases, Bool-clash,
  count_from, count_from-miss, count_from-hit, eq_of_==,
}
use mac_osx_file_system_filt.FakeFsd.{
  FakeFsdFunction, retrieve_offset_desc_by_fake_op, retrieve_entry_by_fake_op, fake_vnodeop_entries,
}
use mac_osx_file_system_filt.FakeFsd.Layout.{
  Memory, Scan, scan, scan_one, hit, set_offset, trunc_page,
}
use mac_osx_file_system_filt.Vnop.Desc.{VnodeopDesc, desc_eq}
use mac_osx_file_system_filt.Vnop.Tables.{FltVnodeOpvOffsetDesc, retrieve_offset_desc}

abbrev pub is_found : {A : Type 0} → Option A → Bool
is_found none = false
is_found (some a) = true

set_offset-is_found :
    (ds : List FltVnodeOpvOffsetDesc) (op q : VnodeopDesc) (n : ℕ)
    → is_found (retrieve_offset_desc (set_offset ds op n) q) ≡ is_found (retrieve_offset_desc ds q)
unfolding set_offset retrieve_offset_desc
set_offset-is_found [] op q n = refl
set_offset-is_found (e ∷ es) op q n = elim (Bool-cases (desc_eq op e.opve_op)) [
  | inl same ↦ elim (Bool-cases (desc_eq q e.opve_op)) [
    | inl at ↦ rw (same, at) refl
    | inr off ↦ rw (same, off) refl
  ]
  | inr miss ↦ elim (Bool-cases (desc_eq q e.opve_op)) [
    | inl at ↦ rw (miss, at) refl
    | inr off ↦ rw (miss, off) (set_offset-is_found es op q n)
  ]
]

-- Two arrays have entries for the same functions of the fake file system.
abbrev pub HaveSameEntries : List FltVnodeOpvOffsetDesc → List FltVnodeOpvOffsetDesc → Type 0
HaveSameEntries ds ds' =
    (f : FakeFsdFunction)
    → is_found (retrieve_offset_desc_by_fake_op ds' f)
      ≡ is_found (retrieve_offset_desc_by_fake_op ds f)

set_offset-HaveSameEntries :
    (ds : List FltVnodeOpvOffsetDesc) (op : VnodeopDesc) (n : ℕ)
    → HaveSameEntries ds (set_offset ds op n)
unfolding retrieve_offset_desc_by_fake_op
set_offset-HaveSameEntries ds op n f =
    elim (Option-cases (retrieve_entry_by_fake_op fake_vnodeop_entries f)) [
      | inl e ↦ rw (is_found, e) refl
      | inr (d, e) ↦ rw (is_found, e) (set_offset-is_found ds op d.opve_op n)
    ]

module _ (k : Memory) (v_op : ℕ) (ds : List FltVnodeOpvOffsetDesc) where
  -- The word at a position of the vector points to a function of the fake file system that has an
  -- entry in the array.
  abbrev pub is_hit : ℕ → Bool
  is_hit i = elim (k.function_at ((v_op + i * 8) % 2 ^ 64)) [
    | none ↦ false
    | some f ↦ is_found (retrieve_offset_desc_by_fake_op ds f)
  ]

  -- A round leaves the loop, passes over a word, or counts it.
  scan_one-cases :
      (i : ℕ) (s : Scan)
      → HaveSameEntries ds s.descs
      → (scan_one k v_op i s ≡ (true, s))
        ⊎ ((is_hit i ≡ false) × (scan_one k v_op i s ≡ (false, s)))
        ⊎ ((d : FltVnodeOpvOffsetDesc) × (is_hit i ≡ true) × (scan_one k v_op i s ≡ hit i d s))
  unfolding scan_one
  scan_one-cases i s same =
      let func = (v_op + i * 8) % 2 ^ 64 in
      let last = (func + 7) % 2 ^ 64 in
      let leaves = not (trunc_page last == trunc_page v_op) && not (k.is_mapped last) in
      elim (Bool-cases leaves) [
        | inl out ↦ inl (rw out refl)
        | inr on ↦ elim (Option-cases (k.function_at func)) [
          | inl other ↦ inr (inl (rw (is_hit, other) refl, rw (scan_one, on, other) refl))
          | inr (f, at) ↦ elim (Option-cases (retrieve_offset_desc_by_fake_op s.descs f)) [
            | inl e ↦ inr (
                inl (rw (is_hit, at) (sym (same f) ∙ ap is_found e), rw (scan_one, on, at, e) refl))
            | inr (d, e) ↦ inr (
                inr (
                  d,
                  rw (is_hit, at) (sym (same f) ∙ ap is_found e),
                  rw (scan_one, on, at, e) refl,
                ))
          ]
        ]
      ]

  hit-HaveSameEntries :
      (i : ℕ) (d : FltVnodeOpvOffsetDesc) (s : Scan)
      → HaveSameEntries ds s.descs
      → HaveSameEntries ds (hit i d s).1.descs
  unfolding hit
  hit-HaveSameEntries i d s same f = set_offset-HaveSameEntries s.descs d.opve_op (i * 8) f ∙ same f

  pub scan-HaveSameEntries :
      (n i : ℕ) (s : Scan)
      → HaveSameEntries ds s.descs
      → HaveSameEntries ds (scan k v_op n i s).descs
  unfolding scan
  scan-HaveSameEntries zero i s same = same
  scan-HaveSameEntries (suc n) i s same = elim (scan_one-cases i s same) [
    | inl out ↦ rw out same
    | inr (inl (_, pass)) ↦ rw pass (scan-HaveSameEntries n (suc i) s same)
    | inr (inr (d, _, e)) ↦
        let after = hit-HaveSameEntries i d s same in
        elim (Bool-cases (hit i d s).0) [
          | inl stop ↦ rw (e, stop) after
          | inr on ↦ rw (e, on) (scan-HaveSameEntries n (suc i) _ after)
        ]
  ]

  -- So many words from a position on bring the hits to seventeen.
  abbrev Reaches : ℕ → ℕ → ℕ → Type 0
  Reaches n i hits = (m : ℕ) × (m ≤ n) × (hits + count_from is_hit m i ≡ 17)

  hit-stop :
      (i : ℕ) (d : FltVnodeOpvOffsetDesc) (s : Scan)
      → (hit i d s).0 ≡ true
      → s.number_of_hits + 1 ≡ 17
  unfolding hit
  hit-stop i d s h = eq_of_== _ _ h

  hit-next :
      (i : ℕ) (d : FltVnodeOpvOffsetDesc) (s : Scan)
      → ((hit i d s).1.number_of_hits ≡ s.number_of_hits + 1)
        × ((hit i d s).1.v_node_vop_found ≡ (hit i d s).0)
  unfolding hit
  hit-next i d s = (refl, refl)

  -- When the search of a vector that was not accepted before accepts it, it has counted seventeen
  -- words.
  pub scan-hits :
      (n i : ℕ) (s : Scan)
      → HaveSameEntries ds s.descs
      → s.v_node_vop_found ≡ false
      → (scan k v_op n i s).v_node_vop_found ≡ true
      → Reaches n i s.number_of_hits
  unfolding scan
  scan-hits zero i s same unset found = absurd (Bool-clash _ found unset)
  scan-hits (suc n) i s same unset found = elim (scan_one-cases i s same) [
    | inl out ↦ absurd (Bool-clash _ (rw out at found) unset)
    | inr (inl (off, pass)) ↦
        let (m, le, e) = scan-hits n (suc i) s same unset (rw pass at found) in
        (suc m, omega (arith, le), omega (arith, e, count_from-miss is_hit m i off))
    | inr (inr (d, on, e)) ↦
        let (next, flag) = hit-next i d s in
        elim (Bool-cases (hit i d s).0) [
          | inl stop ↦
              (1, omega arith, omega (arith, hit-stop i d s stop, count_from-hit is_hit 0 i on))
          | inr more ↦
              let (m, le, sum) =
                scan-hits n (suc i) (hit i d s).1 (hit-HaveSameEntries i d s same) (flag ∙ more)
                  (rw (e, more) at found) in
              (suc m, omega (arith, le), omega (arith, sum, next, count_from-hit is_hit m i on))
        ]
  ]
