-- ===== src/Hook/Threads/Proper.antt =====
-- What the calls rely on, and what they have found: each step of a thread leaves it right.
use mac_osx_file_system_filt.Base.{
  ℕ, ◌≡◌, ◌≢◌, refl, sym, ◌∙◌, ap, Bool, true, false, Bool-cases, inl, inr, if◌then◌else◌, ◌==◌,
  arith, eq_of_==, ne_of_==, All, All-zip, Option, some,
}
use mac_osx_file_system_filt.Hook.Entry.{get_original_vop, decrement_vnode_counter}
use mac_osx_file_system_filt.Hook.HashTable.{HashTable}
use mac_osx_file_system_filt.Hook.Lookup.{retrieve-found, retrieve-missing}
use mac_osx_file_system_filt.Hook.Ops.{
  allocate_entry, decrement, unhook_exclusive, original_from_entry, is_of_no_interest,
  current_vnode_op,
}
use mac_osx_file_system_filt.Hook.Registry.{
  Env, Registry, modify_entry, retrieve_entry, release_entry, get_vnode_op_vector,
}
use mac_osx_file_system_filt.Hook.Threads.{
  Pc, hook_starts, hook_counts, hook_allocates, hook_waits, hook_installs, unhook_starts,
  unhook_counts, unhook_waits, unhook_restores, lookup_starts, lookup_repeats, lookup_reads,
  releases, returned, answered, advance,
}
use mac_osx_file_system_filt.Hook.Threads.Held.{held, retrieve-table}
use mac_osx_file_system_filt.Hook.Threads.Kept.{originals, retrieve-originals}
use mac_osx_file_system_filt.Hook.Threads.Vectors.{Remembers, IsFaithful, Remembers-kept}
use mac_osx_file_system_filt.Hook.Vector.{slots}
use mac_osx_file_system_filt.VfsHooks.Index.{IsPlaced, slots-IsPlaced}
use mac_osx_file_system_filt.Vnop.Tables.{VopFunc}
use mac_osx_file_system_filt.Vnop.VopEnum.{FltVopEnum}

-- The step is none of the two that install and restore.
abbrev pub is_quiet : Pc → Bool
is_quiet (hook_installs vnode v_op new) = false
is_quiet (unhook_restores v_op e) = false
is_quiet _ = true

module _ ⦃g : HashTable⦄ where
  -- The lookups and the words are the same.
  pub record IsQuiet (r s : Registry g.Table) : Type 0 where
    pub table : s.table ≡ r.table
    pub words : s.words ≡ r.words

  retrieve-words :
      (r : Registry g.Table) (v_op : ℕ) (b : Bool) → (retrieve_entry r v_op b).1.words ≡ r.words
  unfolding retrieve_entry
  retrieve-words r v_op b = ground arith

  retrieve-IsQuiet : (r : Registry g.Table) (v_op : ℕ) → IsQuiet r (retrieve_entry r v_op true).1
  retrieve-IsQuiet r v_op = record {
    table = retrieve-table r v_op true;
    words = retrieve-words r v_op true;
  }

  pub advance-IsQuiet :
      (env : Env) (p : Pc) (r : Registry g.Table)
      → is_quiet p ≡ true
      → IsQuiet r (advance env p r).1
  unfolding advance allocate_entry original_from_entry release_entry
  advance-IsQuiet env (hook_starts vnode v_op) r q = retrieve-IsQuiet r v_op
  advance-IsQuiet env (hook_counts e) r q = record { table = refl; words = refl }
  advance-IsQuiet env (hook_allocates vnode v_op) r q =
      elim (Bool-cases (env.new_object r.entries == 0)) [
        | inl null ↦ rw null (record { table = refl; words = refl })
        | inr got ↦ rw got (record { table = refl; words = refl })
      ]
  advance-IsQuiet env (hook_waits vnode v_op new) r q = record { table = refl; words = refl }
  advance-IsQuiet env (hook_installs vnode v_op new) r q = cc
  advance-IsQuiet env (unhook_starts v_op) r q = retrieve-IsQuiet r v_op
  advance-IsQuiet env (unhook_counts v_op e) r q = record { table = refl; words = refl }
  advance-IsQuiet env (unhook_waits v_op e) r q = record { table = refl; words = refl }
  advance-IsQuiet env (unhook_restores v_op e) r q = cc
  advance-IsQuiet env (lookup_starts vnode indx) r q =
      retrieve-IsQuiet r (get_vnode_op_vector env vnode)
  advance-IsQuiet env (lookup_repeats vnode indx) r q =
      let v_op = get_vnode_op_vector env vnode in
      elim (Bool-cases ((retrieve_entry r v_op true).0 == 0)) [
        | inl null ↦ rw null (retrieve-IsQuiet r v_op)
        | inr got ↦ rw got (retrieve-IsQuiet r v_op)
      ]
  advance-IsQuiet env (lookup_reads vnode e indx) r q = record { table = refl; words = refl }
  advance-IsQuiet env (releases e) r q = record { table = refl; words = refl }
  advance-IsQuiet env returned r q = record { table = refl; words = refl }
  advance-IsQuiet env (answered vnode indx f) r q = record { table = refl; words = refl }

  module _ (env : Env) (V : ℕ → Type 0) (before : ℕ → VopFunc) where
    -- The answer is what the slot of the operation held before.
    abbrev pub IsOriginal : ℕ → FltVopEnum → Option VopFunc → Type 0
    IsOriginal vnode indx f =
        All (λ l. indx ≡ l.indx → f ≡ some (before l.address))
          (slots env (get_vnode_op_vector env vnode))

    -- The call is on a vector of the world, what it hooks is of interest, and what it has found is
    -- right.
    abbrev pub IsProper : Registry g.Table → Pc → Type 0
    IsProper r (hook_starts vnode v_op) = (is_of_no_interest env vnode ≡ false) × V v_op
    IsProper r (hook_allocates vnode v_op) = (is_of_no_interest env vnode ≡ false) × V v_op
    IsProper r (hook_waits vnode v_op new) = (is_of_no_interest env vnode ≡ false) × V v_op
    IsProper r (hook_installs vnode v_op new) = (is_of_no_interest env vnode ≡ false) × V v_op
    IsProper r (unhook_starts v_op) = V v_op
    IsProper r (unhook_counts v_op e) = V v_op
    IsProper r (unhook_waits v_op e) = V v_op
    IsProper r (unhook_restores v_op e) = V v_op
    IsProper r (lookup_starts vnode indx) = V (get_vnode_op_vector env vnode)
    IsProper r (lookup_repeats vnode indx) = V (get_vnode_op_vector env vnode)
    IsProper r (lookup_reads vnode e indx) =
        (e ≢ 0) × Remembers env before r (get_vnode_op_vector env vnode) e
    IsProper r (answered vnode indx f) = IsOriginal vnode indx f
    IsProper r _ = Unit

    -- What another thread does leaves a thread's findings right.
    pub IsProper-other :
        (r s : Registry g.Table) (q : Pc)
        → (held q ≢ 0 → originals s (held q) ≡ originals r (held q))
        → IsProper r q
        → IsProper s q
    IsProper-other r s (lookup_reads vnode e indx) same (held_it, kept) = (
      held_it,
      Remembers-kept env before r s (get_vnode_op_vector env vnode) e (same held_it) kept,
    )
    IsProper-other r s (hook_starts vnode v_op) same ok = ok
    IsProper-other r s (hook_counts e) same ok = tt
    IsProper-other r s (hook_allocates vnode v_op) same ok = ok
    IsProper-other r s (hook_waits vnode v_op new) same ok = ok
    IsProper-other r s (hook_installs vnode v_op new) same ok = ok
    IsProper-other r s (unhook_starts v_op) same ok = ok
    IsProper-other r s (unhook_counts v_op e) same ok = ok
    IsProper-other r s (unhook_waits v_op e) same ok = ok
    IsProper-other r s (unhook_restores v_op e) same ok = ok
    IsProper-other r s (lookup_starts vnode indx) same ok = ok
    IsProper-other r s (lookup_repeats vnode indx) same ok = ok
    IsProper-other r s (releases e) same ok = tt
    IsProper-other r s returned same ok = tt
    IsProper-other r s (answered vnode indx f) same ok = ok

    IsProper-if :
        (r : Registry g.Table) (c : Bool) (p q : Pc)
        → IsProper r p
        → IsProper r q
        → IsProper r (if c then p else q)
    IsProper-if r true p q x y = x
    IsProper-if r false p q x y = y

    -- The entry that a lookup finds.
    retrieve-IsProper :
        (r : Registry g.Table) (vnode : ℕ) (indx : FltVopEnum) (v : ℕ)
        → get_vnode_op_vector env vnode ≡ v
        → IsFaithful env before r v
        → (retrieve_entry r v true).0 ≢ 0
        → IsProper (retrieve_entry r v true).1 (lookup_reads vnode (retrieve_entry r v true).0 indx)
    retrieve-IsProper r vnode indx v same (inl (null, _)) got =
        absurd (got (ap (λ x. x.0) (retrieve-missing r null true)))
    retrieve-IsProper r vnode indx v same (inr (found, kept)) got = rw same (
      got,
      Remembers-kept env before r (retrieve_entry r v true).1 v (retrieve_entry r v true).0
          (retrieve-originals r v (retrieve_entry r v true).0) (rw (retrieve-found r found) kept),
    )

    unfound-words :
        (r : Registry g.Table) (v : ℕ)
        → IsFaithful env before r v
        → (retrieve_entry r v true).0 ≡ 0
        → All (λ l. (retrieve_entry r v true).1.words l.address ≡ before l.address) (slots env v)
    unfound-words r v (inl (null, words)) got = rw (retrieve-missing r null true) words
    unfound-words r v (inr (found, kept)) got =
        absurd (found (sym (ap (λ x. x.0) (retrieve-found r found)) ∙ got))

    -- The function in the slot of a vector that has no entry.
    current-IsOriginal :
        (r : Registry g.Table) (vnode : ℕ) (indx : FltVopEnum)
        → All
            (λ l. r.words l.address ≡ before l.address)
            (slots env (get_vnode_op_vector env vnode))
        → IsOriginal vnode indx (current_vnode_op env r vnode indx)
    current-IsOriginal r vnode indx words =
        let v = get_vnode_op_vector env vnode in
        All-zip (slots env v)
          (λ l (p : IsPlaced env v l) w same.
            ap (current_vnode_op env r vnode) same ∙ p.current r vnode refl ∙ ap some w)
          (slots-IsPlaced env v) words

    -- A thread's own step.
    pub advance-IsProper :
        (p : Pc) (r : Registry g.Table)
        → ((v : ℕ) → V v → IsFaithful env before r v)
        → IsProper r p
        → IsProper (advance env p r).1 (advance env p r).0
    unfolding advance original_from_entry get_original_vop
    advance-IsProper (hook_starts vnode v_op) r faithful ok =
        let (e, s) = retrieve_entry r v_op true in
        IsProper-if s (e == 0) (hook_allocates vnode v_op) (hook_counts e) ok tt
    advance-IsProper (hook_counts e) r faithful ok = tt
    advance-IsProper (hook_allocates vnode v_op) r faithful ok =
        let (new, s) = allocate_entry env r in
        IsProper-if s (new == 0) returned (hook_waits vnode v_op new) tt ok
    advance-IsProper (hook_waits vnode v_op new) r faithful ok = ok
    advance-IsProper (hook_installs vnode v_op new) r faithful ok = tt
    advance-IsProper (unhook_starts v_op) r faithful ok =
        let (e, s) = retrieve_entry r v_op true in
        IsProper-if s (e == 0) returned (unhook_counts v_op e) tt ok
    advance-IsProper (unhook_counts v_op e) r faithful ok =
        let before_it = (decrement_vnode_counter (r.entries e)).0 in
        IsProper-if (modify_entry r e decrement) (before_it == 1) (unhook_waits v_op e) (releases e)
          ok tt
    advance-IsProper (unhook_waits v_op e) r faithful ok = ok
    advance-IsProper (unhook_restores v_op e) r faithful ok =
        let (left, s) = unhook_exclusive env v_op e r in
        IsProper-if s (left == 0) returned (releases left) tt tt
    advance-IsProper (lookup_starts vnode indx) r faithful ok =
        let v = get_vnode_op_vector env vnode in
        elim (Bool-cases ((retrieve_entry r v true).0 == 0)) [
          | inl null ↦ rw null ok
          | inr got ↦
              rw got (retrieve-IsProper r vnode indx v refl (faithful v ok) (ne_of_== _ _ got))
        ]
    advance-IsProper (lookup_repeats vnode indx) r faithful ok =
        let v = get_vnode_op_vector env vnode in
        elim (Bool-cases ((retrieve_entry r v true).0 == 0)) [
          | inl null ↦ rw null (
              current-IsOriginal (retrieve_entry r v true).1 vnode indx
                (unfound-words r v (faithful v ok) (eq_of_== _ _ null)))
          | inr got ↦
              rw got (retrieve-IsProper r vnode indx v refl (faithful v ok) (ne_of_== _ _ got))
        ]
    advance-IsProper (lookup_reads vnode e indx) r faithful (some_e, kept) =
        All-zip (slots env (get_vnode_op_vector env vnode))
          (λ l k _ same. ap (λ i. some (originals r e i)) same ∙ ap some k) kept kept
    advance-IsProper (releases e) r faithful ok = tt
    advance-IsProper returned r faithful ok = tt
    advance-IsProper (answered vnode indx f) r faithful ok = ok
