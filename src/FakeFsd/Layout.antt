-- ===== src/FakeFsd/Layout.antt =====
-- The search of an operation vector in FltGetVnodeLayout (FsdFilter/FltFakeFSD.cpp): from the end
-- of a vnode downwards for the member v_op, and in each candidate vector for the functions of the
-- fake file system.
use mac_osx_file_system_filt.Base.{
  ℕ, zero, suc, ◌+◌, ◌-◌, ◌*◌, ◌%◌, ◌^◌, ◌≡◌, inl, inr, refl, List, [], ◌∷◌, Option, none, some,
  Bool, true, false, if◌then◌else◌, ◌==◌, not, ◌&&◌, Bool-cases,
}
use mathlib.Core.Option.{none-ne-some}
use mac_osx_file_system_filt.FakeFsd.{
  FakeFsdFunction, retrieve_offset_desc_by_fake_op, offset_entry,
}
use mac_osx_file_system_filt.Vnop.Desc.{VnodeopDesc, desc_eq, eq_of_desc_eq}
use mac_osx_file_system_filt.Vnop.Tables.{FltVnodeOpvOffsetDesc, retrieve_offset_desc}
use mac_osx_file_system_filt.VmPmap.{page_size}

-- The kernel memory that is read: the word at an address, the function of the fake file system that
-- a word points to, if any, and whether FltVirtToPhys finds a page.
pub record Memory : Type 0 where
  pub word_at : ℕ → ℕ
  pub function_at : ℕ → Option FakeFsdFunction
  pub is_mapped : ℕ → Bool

abbrev pub trunc_page : ℕ → ℕ
trunc_page a = a - a % page_size

-- vnodeOpvOffsetDesc->offset = n, in the entry of the array for an operation.
unfoldable pub set_offset :
    List FltVnodeOpvOffsetDesc → VnodeopDesc → ℕ → List FltVnodeOpvOffsetDesc
set_offset [] op n = []
set_offset (d ∷ ds) op n =
    let rest = set_offset ds op n in
    if desc_eq op d.opve_op then offset_entry d.opve_op n ∷ ds else d ∷ rest

-- The array, numberOfHits and vNodeVopFound.
pub record Scan : Type 0 where
  pub descs : List FltVnodeOpvOffsetDesc
  pub number_of_hits : ℕ
  pub v_node_vop_found : Bool

-- gNumberOfOpvOffsetDescs
abbrev pub number_of_opv_offset_descs : ℕ
number_of_opv_offset_descs = 17

-- A function of the fake file system at the position i of the vector.
unfoldable pub hit : ℕ → FltVnodeOpvOffsetDesc → Scan → Bool × Scan
hit i d s =
    let hits = s.number_of_hits + 1 in
    let found = hits == number_of_opv_offset_descs in
    (
      found,
      record {
        descs = set_offset s.descs d.opve_op (i * 8);
        number_of_hits = hits;
        v_node_vop_found = found;
      },
    )

-- One round of the loop over a candidate vector, and whether the loop is left.
unfoldable pub scan_one : Memory → ℕ → ℕ → Scan → Bool × Scan
scan_one k v_op i s =
    let func = (v_op + i * 8) % 2 ^ 64 in
    let last = (func + 7) % 2 ^ 64 in
    if not (trunc_page last == trunc_page v_op) && not (k.is_mapped last)
    then (true, s)
    else elim (k.function_at func) [
      | none ↦ (false, s)
      | some f ↦ elim (retrieve_offset_desc_by_fake_op s.descs f) [
        | none ↦ (false, s)
        | some d ↦ hit i d s
      ]
    ]

-- The loop, from a position on for a number of rounds.
unfoldable pub scan : Memory → ℕ → ℕ → ℕ → Scan → Scan
scan k v_op zero i s = s
scan k v_op (suc n) i s =
    let (stop, s') = scan_one k v_op i s in
    let rest = scan k v_op n (suc i) s' in if stop then s' else rest

-- The loop for v_op, over the words of the first vnode below a position: the offset of v_op, if it
-- is found, and the array. Both values that are compared are read from the first vnode.
unfoldable pub vop_search :
    Memory → ℕ → ℕ → List FltVnodeOpvOffsetDesc → Option ℕ × List FltVnodeOpvOffsetDesc
vop_search k vnode zero descs = (none, descs)
vop_search k vnode (suc j) descs =
    let v_op1 = k.word_at ((vnode + j * 8) % 2 ^ 64) in
    let v_op2 = k.word_at ((vnode + j * 8) % 2 ^ 64) in
    let start : Scan = record { descs = descs; number_of_hits = 0; v_node_vop_found = false } in
    let s = scan k v_op1 100 0 start in
    let next = vop_search k vnode j s.descs in
    let skipped = vop_search k vnode j descs in
    if not (v_op1 == 0) && v_op1 == v_op2 && k.is_mapped v_op1
    then (if s.v_node_vop_found then (some (j * 8), s.descs) else next)
    else skipped

pub set_offset-same :
    (ds : List FltVnodeOpvOffsetDesc) (op : VnodeopDesc) (n : ℕ) (d : FltVnodeOpvOffsetDesc)
    → retrieve_offset_desc ds op ≡ some d
    → retrieve_offset_desc (set_offset ds op n) op ≡ some (offset_entry op n)
unfolding set_offset retrieve_offset_desc
set_offset-same [] op n d h = absurd (none-ne-some d h)
set_offset-same (e ∷ es) op n d h = elim (Bool-cases (desc_eq op e.opve_op)) [
  | inl same ↦ rw (same, same, ← eq_of_desc_eq op e.opve_op same) refl
  | inr miss ↦ rw (miss, miss) (set_offset-same es op n d (rw miss at h))
]

pub set_offset-other :
    (ds : List FltVnodeOpvOffsetDesc) (op q : VnodeopDesc) (n : ℕ)
    → desc_eq q op ≡ false
    → retrieve_offset_desc (set_offset ds op n) q ≡ retrieve_offset_desc ds q
unfolding set_offset retrieve_offset_desc
set_offset-other [] op q n other = refl
set_offset-other (e ∷ es) op q n other = elim (Bool-cases (desc_eq op e.opve_op)) [
  | inl same ↦ let p = eq_of_desc_eq op e.opve_op same in rw (same, ← p, other) refl
  | inr miss ↦ elim (Bool-cases (desc_eq q e.opve_op)) [
    | inl at ↦ rw (miss, at) refl
    | inr off ↦ rw (miss, off) (set_offset-other es op q n other)
  ]
]
