-- ===== src/Hook/Located.antt =====
-- The loops of hooking and unhooking over the operations that have a slot in the vector: which
-- words and which originals they leave.
use mac_osx_file_system_filt.Base.{
  ℕ, ◌≡◌, refl, List, [], ◌∷◌, none, some, true, false, ◌==◌, arith, All, not, ◌&&◌, Option-cases,
  Bool-cases, inl, inr, ==_refl, eq_of_==, All-zip, update,
}
use mac_osx_file_system_filt.Hook.Entry.{
  FltVnodeHookEntry, set_original_vop, is_hooked, get_original_vop,
}
use mac_osx_file_system_filt.Hook.Loop.{
  locate, write_wired, hook_one, hook_loop, unhook_one, unhook_loop,
}
use mac_osx_file_system_filt.Hook.Registry.{Env, Vtype, is_vreg, is_vdir}
use mac_osx_file_system_filt.Vnop.Tables.{VopFunc, HookFunction, hook, VnodeopvEntryDesc}
use mac_osx_file_system_filt.Vnop.VopEnum.{FltVopEnum, vop_eq, vop_eq_refl}

-- An operation with a slot: the address of its word, its index, and the hook.
pub record Located : Type 0 where
  pub address : ℕ
  pub indx : FltVopEnum
  pub function : HookFunction

unfoldable pub located : Env → ℕ → List (VnodeopvEntryDesc HookFunction) → List Located
located env v_op [] = []
located env v_op (d ∷ ds) = elim (locate env v_op d.opve_op) [
  | none ↦ located env v_op ds
  | some (a, i) ↦ record { address = a; indx = i; function = d.opve_impl } ∷ located env v_op ds
]

-- The address is not the slot of any of these operations.
abbrev pub IsOutside : ℕ → List Located → Type 0
IsOutside a ls = All (λ l. (l.address == a) ≡ false) ls

-- Different operations have different slots and different indices.
abbrev pub IsApart : List Located → Type 0
IsApart [] = Unit
IsApart (l ∷ ls) = IsOutside l.address ls × All (λ k. vop_eq k.indx l.indx ≡ false) ls × IsApart ls

abbrev pub AllWired : Env → List Located → Type 0
AllWired env ls = All (λ l. env.is_wired l.address ≡ true) ls

-- The hooking loop over located operations.
pub hook_all : List Located → FltVnodeHookEntry × (ℕ → VopFunc) → FltVnodeHookEntry × (ℕ → VopFunc)
hook_all [] st = st
hook_all (l ∷ ls) (e, words) =
    hook_all ls
      (set_original_vop e l.indx (words l.address), update words l.address (hook l.function))

-- The unhooking loop over located operations.
pub unhook_all : FltVnodeHookEntry → List Located → (ℕ → VopFunc) → ℕ → VopFunc
unhook_all e [] words = words
unhook_all e (l ∷ ls) words = unhook_all e ls (update words l.address (e.orig_vop l.indx))

-- No original that is kept for these operations is the mark.
abbrev pub AllKept : FltVnodeHookEntry → List Located → Type 0
AllKept e ls = All (λ l. is_hooked e l.indx ≡ true) ls

module _ (env : Env) (v_op : ℕ) (d : VnodeopvEntryDesc HookFunction)
    (ds : List (VnodeopvEntryDesc HookFunction)) where
  pub located-none :
      locate env v_op d.opve_op ≡ none → located env v_op (d ∷ ds) ≡ located env v_op ds
  unfolding located
  located-none p = ground arith

  pub located-some :
      (a : ℕ) (i : FltVopEnum)
      → locate env v_op d.opve_op ≡ some (a, i)
      → located env v_op (d ∷ ds)
        ≡ record { address = a; indx = i; function = d.opve_impl } ∷ located env v_op ds
  unfolding located
  located-some a i p = ground arith

module _ (env : Env) (v_op : ℕ) where
  hook_one-none :
      (vtype : Vtype) (d : VnodeopvEntryDesc HookFunction) (e : FltVnodeHookEntry)
      (words : ℕ → VopFunc)
      → locate env v_op d.opve_op ≡ none
      → hook_one env v_op vtype d (e, words) ≡ (e, words)
  unfolding hook_one
  hook_one-none vtype d e words p = rw (p, hook_one)

  hook_one-some :
      (vtype : Vtype) (d : VnodeopvEntryDesc HookFunction) (e : FltVnodeHookEntry)
      (words : ℕ → VopFunc) (a : ℕ) (i : FltVopEnum)
      → (not (is_vreg vtype) && not (is_vdir vtype)) ≡ false
      → locate env v_op d.opve_op ≡ some (a, i)
      → env.is_wired a ≡ true
      → hook_one env v_op vtype d (e, words)
        ≡ (set_original_vop e i (words a), update words a (hook d.opve_impl))
  unfolding hook_one write_wired
  hook_one-some vtype d e words a i h p w = ground arith

  pub hook_loop-hook_all :
      (vtype : Vtype) (ds : List (VnodeopvEntryDesc HookFunction)) (e : FltVnodeHookEntry)
      (words : ℕ → VopFunc)
      → (not (is_vreg vtype) && not (is_vdir vtype)) ≡ false
      → AllWired env (located env v_op ds)
      → hook_loop env v_op vtype ds (e, words) ≡ hook_all (located env v_op ds) (e, words)
  unfolding hook_loop hook_all
  hook_loop-hook_all vtype [] e words h w = unfold located in refl
  hook_loop-hook_all vtype (d ∷ ds) e words h w = elim (Option-cases (locate env v_op d.opve_op)) [
    | inl p ↦
        rw (hook_one-none vtype d e words p, located-none env v_op d ds p)
          (hook_loop-hook_all vtype ds e words h (rw (located-none env v_op d ds p) at w))
    | inr ((a, i), p) ↦
        let q = located-some env v_op d ds a i p in
        let w' = rw q at w in
        rw (hook_one-some vtype d e words a i h p w'.0, q) (hook_loop-hook_all vtype ds _ _ h w'.1)
  ]

  unhook_one-none :
      (e : FltVnodeHookEntry) (d : VnodeopvEntryDesc HookFunction) (words : ℕ → VopFunc)
      → locate env v_op d.opve_op ≡ none
      → unhook_one env v_op e d words ≡ words
  unfolding unhook_one
  unhook_one-none e d words p = rw (p, unhook_one)

  unhook_one-some :
      (e : FltVnodeHookEntry) (d : VnodeopvEntryDesc HookFunction) (words : ℕ → VopFunc) (a : ℕ)
      (i : FltVopEnum)
      → locate env v_op d.opve_op ≡ some (a, i)
      → env.is_wired a ≡ true
      → is_hooked e i ≡ true
      → unhook_one env v_op e d words ≡ update words a (e.orig_vop i)
  unfolding unhook_one write_wired get_original_vop
  unhook_one-some e d words a i p w k = rw (p, unhook_one, k, w)

  pub unhook_loop-unhook_all :
      (e : FltVnodeHookEntry) (ds : List (VnodeopvEntryDesc HookFunction)) (words : ℕ → VopFunc)
      → AllWired env (located env v_op ds)
      → AllKept e (located env v_op ds)
      → unhook_loop env v_op e ds words ≡ unhook_all e (located env v_op ds) words
  unfolding unhook_loop unhook_all
  unhook_loop-unhook_all e [] words w k = unfold located in refl
  unhook_loop-unhook_all e (d ∷ ds) words w k = elim (Option-cases (locate env v_op d.opve_op)) [
    | inl p ↦
        let q = located-none env v_op d ds p in
        rw (unhook_one-none e d words p, q)
          (unhook_loop-unhook_all e ds words (rw q at w) (rw q at k))
    | inr ((a, i), p) ↦
        let q = located-some env v_op d ds a i p in
        let w' = rw q at w in
        let k' = rw q at k in
        rw (unhook_one-some e d words a i p w'.0 k'.0, q) (unhook_loop-unhook_all e ds _ w'.1 k'.1)
  ]

-- What the hooking loop does to the words outside the slots, and to the rest of the entry.
pub hook_all-outside :
    (ls : List Located) (e : FltVnodeHookEntry) (words : ℕ → VopFunc) (a : ℕ)
    → IsOutside a ls
    → (hook_all ls (e, words)).1 a ≡ words a
unfolding hook_all
hook_all-outside [] e words a o = refl
hook_all-outside (l ∷ ls) e words a o = rw (hook_all-outside ls _ _ a o.1, o.0)

pub hook_all-counters :
    (ls : List Located) (e : FltVnodeHookEntry) (words : ℕ → VopFunc)
    → ((hook_all ls (e, words)).0.retain_count ≡ e.retain_count)
      × ((hook_all ls (e, words)).0.v_node_counter ≡ e.v_node_counter)
unfolding hook_all set_original_vop
hook_all-counters [] e words = (refl, refl)
hook_all-counters (l ∷ ls) e words = hook_all-counters ls _ _

-- An original that belongs to none of the operations is kept.
pub hook_all-orig_outside :
    (ls : List Located) (e : FltVnodeHookEntry) (words : ℕ → VopFunc) (i : FltVopEnum)
    → All (λ k. vop_eq k.indx i ≡ false) ls
    → (hook_all ls (e, words)).0.orig_vop i ≡ e.orig_vop i
unfolding hook_all set_original_vop
hook_all-orig_outside [] e words i o = refl
hook_all-orig_outside (l ∷ ls) e words i o = rw (hook_all-orig_outside ls _ _ i o.1, o.0)

-- Every slot gets its hook, and its original is kept.
pub hook_all-slots :
    (ls : List Located) (e : FltVnodeHookEntry) (words : ℕ → VopFunc)
    → IsApart ls
    → All
        (λ l.
          ((hook_all ls (e, words)).1 l.address ≡ hook l.function)
          × ((hook_all ls (e, words)).0.orig_vop l.indx ≡ words l.address))
        ls
unfolding hook_all set_original_vop
hook_all-slots [] e words p = tt
hook_all-slots (l ∷ ls) e words p =
    let e' = set_original_vop e l.indx (words l.address) in
    let words' = update words l.address (hook l.function) in
    (
      (
        rw (hook_all-outside ls e' words' l.address p.0, ==_refl l.address),
        rw (hook_all-orig_outside ls e' words' l.indx p.1, vop_eq_refl l.indx),
      ),
      All-zip ls (λ k out kept. (kept.0, ground (arith, kept.1))) p.0
          (hook_all-slots ls e' words' p.2),
    )

-- The unhooking loop writes only to the slots.
pub unhook_all-outside :
    (ls : List Located) (e : FltVnodeHookEntry) (words : ℕ → VopFunc) (a : ℕ)
    → IsOutside a ls
    → unhook_all e ls words a ≡ words a
unfolding unhook_all
unhook_all-outside [] e words a o = refl
unhook_all-outside (l ∷ ls) e words a o = rw (unhook_all-outside ls e _ a o.1, o.0)

-- It puts the kept originals back.
pub unhook_all-slots :
    (ls : List Located) (e : FltVnodeHookEntry) (words before : ℕ → VopFunc)
    → IsApart ls
    → All (λ l. e.orig_vop l.indx ≡ before l.address) ls
    → All (λ l. unhook_all e ls words l.address ≡ before l.address) ls
unfolding unhook_all
unhook_all-slots [] e words before p kept = tt
unhook_all-slots (l ∷ ls) e words before p kept = (
  rw (unhook_all-outside ls e _ l.address p.0, ==_refl l.address) kept.0,
  unhook_all-slots ls e _ before p.2 kept.1,
)

-- An address is a slot or not.
pub slot_cases :
    (P : ℕ → Type 0) (ls : List Located) (a : ℕ)
    → All (λ l. P l.address) ls
    → (IsOutside a ls → P a)
    → P a
slot_cases P [] a inside outside = outside tt
slot_cases P (l ∷ ls) a inside outside = elim (Bool-cases (l.address == a)) [
  | inl hit ↦ rw (← eq_of_== _ _ hit) inside.0
  | inr miss ↦ slot_cases P ls a inside.1 (λ out. outside (miss, out))
]
