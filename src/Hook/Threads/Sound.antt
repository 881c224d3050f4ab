-- ===== src/Hook/Threads/Sound.antt =====
-- Under any interleaving, the references of every entry are those that the table and the threads
-- hold.
use mac_osx_file_system_filt.Base.{
  ℕ, ◌+◌, ◌-◌, ◌≤◌, ◌<◌, ◌≡◌, ◌≢◌, refl, subst, ◌∙◌, ap, Bool, true, false, Bool-cases, inl, inr,
  if◌then◌else◌, ◌==◌, update, arith, ==_refl, ne_of_==, total, total-update, total-ge, total-two,
  total-zero,
}
use mac_osx_file_system_filt.Hook.Entry.{new_entry, decrement_vnode_counter}
use mac_osx_file_system_filt.Hook.HashTable.{HashTable}
use mac_osx_file_system_filt.Hook.Ops.{allocate_entry, decrement, unhook_exclusive}
use mac_osx_file_system_filt.Hook.Registry.{
  Env, Registry, modify_entry, retrieve_entry, get_vnode_op_vector,
}
use mac_osx_file_system_filt.Hook.Threads.{
  Pc, hook_starts, hook_counts, hook_allocates, hook_waits, hook_installs, unhook_starts,
  unhook_counts, unhook_waits, unhook_restores, lookup_starts, lookup_repeats, lookup_reads,
  releases, returned, answered, advance, System, Step, pick, Run, stay, then_step,
}
use mac_osx_file_system_filt.Hook.Threads.Counting.{one, references, Stored-ge}
use mac_osx_file_system_filt.Hook.Threads.Held.{held, Counted, IsPrivate, Own}
use mac_osx_file_system_filt.Hook.Threads.Exchange.{advance-Counted}
use mac_osx_file_system_filt.Hook.Threads.Private.{
  IsUntouched, advance-IsUntouched, advance-IsValid,
}

-- The kernel gives out no object that is still referenced.
abbrev pub IsAllocator : Env → Type 0
IsAllocator env =
    (entries : ℕ → _)
    → env.new_object entries ≢ 0
    → (entries (env.new_object entries)).retain_count ≡ 0

-- How many threads hold a reference to the entry.
abbrev pub holders : ℕ → (ℕ → Pc) → ℕ → ℕ
holders n pc a = total (λ i. one (held (pc i)) a) n

-- The thread has not done anything yet.
abbrev pub begins_call : Pc → Bool
begins_call (hook_starts vnode v_op) = true
begins_call (unhook_starts v_op) = true
begins_call (lookup_starts vnode indx) = true
begins_call _ = false

module _ ⦃g : HashTable⦄ where
  Own-if :
      (r : Registry g.Table) (c : Bool) (p q : Pc) → Own r p → Own r q → Own r (if c then p else q)
  Own-if r true p q x y = x
  Own-if r false p q x y = y

  IsPrivate-new :
      (r : Registry g.Table) (a h : ℕ)
      → a ≢ 0
      → Counted r a h
      → references r a ≡ 0
      → IsPrivate (record r { entries = update r.entries a new_entry }) a
  unfolding new_entry
  IsPrivate-new r a h named old zero = record {
    some = named;
    outside =
        λ j e. absurd (ground (arith, old.counted, zero, Stored-ge r.table j a old.stored, e));
    single = rw (references, ==_refl a) refl;
  }

  -- What a thread knows of its own new entry after its step.
  advance-Own :
      (env : Env) (p : Pc) (r : Registry g.Table)
      → IsAllocator env
      → ((a : ℕ) → a ≢ 0 → (h : ℕ) × Counted r a h)
      → Own r p
      → Own (advance env p r).1 (advance env p r).0
  unfolding advance allocate_entry
  advance-Own env (hook_starts vnode v_op) r alloc counted own =
      let (e, s) = retrieve_entry r v_op true in
      Own-if s (e == 0) (hook_allocates vnode v_op) (hook_counts e) tt tt
  advance-Own env (hook_counts e) r alloc counted own = tt
  advance-Own env (hook_allocates vnode v_op) r alloc counted own =
      elim (Bool-cases (env.new_object r.entries == 0)) [
        | inl null ↦ rw null tt
        | inr some ↦
            rw (some, some)
              (IsPrivate-new r _ _ (ne_of_== _ _ some) (counted _ (ne_of_== _ _ some)).1
                (alloc r.entries (ne_of_== _ _ some)))
      ]
  advance-Own env (hook_waits vnode v_op new) r alloc counted own = own
  advance-Own env (hook_installs vnode v_op new) r alloc counted own = tt
  advance-Own env (unhook_starts v_op) r alloc counted own =
      let (e, s) = retrieve_entry r v_op true in
      Own-if s (e == 0) returned (unhook_counts v_op e) tt tt
  advance-Own env (unhook_counts v_op e) r alloc counted own =
      let before = (decrement_vnode_counter (r.entries e)).0 in
      Own-if (modify_entry r e decrement) (before == 1) (unhook_waits v_op e) (releases e) tt tt
  advance-Own env (unhook_waits v_op e) r alloc counted own = tt
  advance-Own env (unhook_restores v_op e) r alloc counted own =
      let (left, s) = unhook_exclusive env v_op e r in
      Own-if s (left == 0) returned (releases left) tt tt
  advance-Own env (lookup_starts vnode indx) r alloc counted own =
      let (e, s) = retrieve_entry r (get_vnode_op_vector env vnode) true in
      Own-if s (e == 0) (lookup_repeats vnode indx) (lookup_reads vnode e indx) tt tt
  advance-Own env (lookup_repeats vnode indx) r alloc counted own =
      elim (Bool-cases ((retrieve_entry r (get_vnode_op_vector env vnode) true).0 == 0)) [
        | inl null ↦ rw null tt
        | inr got ↦ rw got tt
      ]
  advance-Own env (lookup_reads vnode e indx) r alloc counted own = tt
  advance-Own env (releases e) r alloc counted own = tt
  advance-Own env returned r alloc counted own = tt
  advance-Own env (answered vnode indx f) r alloc counted own = tt

  IsPrivate-kept :
      (r s : Registry g.Table) (a : ℕ) → IsPrivate r a → IsUntouched r s a → IsPrivate s a
  IsPrivate-kept r s a own u = record {
    some = own.some;
    outside = u.outside;
    single = ap (λ e. e.retain_count) u.same ∙ own.single;
  }

  -- What another thread knows of its new entry.
  Own-other :
      (r s : Registry g.Table) (q : Pc)
      → (IsPrivate r (held q) → IsUntouched r s (held q))
      → Own r q
      → Own s q
  Own-other r s (hook_waits vnode v_op new) untouched own =
      IsPrivate-kept r s new own (untouched own)
  Own-other r s (hook_installs vnode v_op new) untouched own =
      IsPrivate-kept r s new own (untouched own)
  Own-other r s q untouched own = tt

  -- No reference to an entry but the table's.
  pub record IsAtRest (r : Registry g.Table) : Type 0 where
    pub valid : g.IsValid r.table
    pub counted : (a : ℕ) → a ≢ 0 → Counted r a 0

  -- Every thread is about to enter a call.
  pub record IsStart (n : ℕ) (s : System g.Table) : Type 0 where
    pub rest : IsAtRest s.registry
    pub begins : (i : ℕ) → i < n → begins_call (s.pc i) ≡ true

  -- The invariant of the interleaving.
  pub record IsSound (n : ℕ) (s : System g.Table) : Type 0 where
    pub valid : g.IsValid s.registry.table
    pub counted : (a : ℕ) → a ≢ 0 → Counted s.registry a (holders n s.pc a)
    pub own : (i : ℕ) → i < n → Own s.registry (s.pc i)

  module _ (env : Env) (alloc : IsAllocator env) (n : ℕ) where
    module _ {s : System g.Table} (inv : IsSound n s) (i : ℕ) (lt : i < n) where
      abbrev next : Pc × Registry g.Table
      next = advance env (s.pc i) s.registry

      step-Counted : (a : ℕ) → a ≢ 0 → Counted next.1 a (holders n (update s.pc i next.0) a)
      step-Counted a named =
          let w = λ (q : Pc). one (held q) a in
          let others = holders n s.pc a - w (s.pc i) in
          let ge = total-ge w s.pc n i lt in
          let before : holders n s.pc a ≡ w (s.pc i) + others = omega (arith, ge) in
          let behind : w next.0 + others ≡ holders n (update s.pc i next.0) a =
            omega (arith, ge, total-update w s.pc n i next.0 lt) in
          subst (λ h. Counted next.1 a h) behind
            (advance-Counted env (s.pc i) s.registry a others (alloc s.registry.entries) inv.valid
              (inv.own i lt) named
              (subst (λ h. Counted s.registry a h) before (inv.counted a named)))

      -- Nobody else holds the new entry of thread `j`.
      pub not_held :
          (j : ℕ)
          → j < n
          → i ≢ j
          → IsPrivate s.registry (held (s.pc j))
          → held (s.pc i) ≢ held (s.pc j)
      not_held j lt' ne mine same =
          let a = held (s.pc j) in
          let both = total-two (λ q. one (held q) a) s.pc n i j lt lt' ne in
          let first : one (held (s.pc i)) a ≡ 1 = rw (same, ==_refl a) in
          let second : one (held (s.pc j)) a ≡ 1 = rw (==_refl a) in
          omega (arith, both, first, second, mine.single, (inv.counted a mine.some).counted)

      step-Own : (j : ℕ) → j < n → Own next.1 (update s.pc i next.0 j)
      step-Own j lt' = elim (Bool-cases (i == j)) [
        | inl same ↦ rw same (
            advance-Own env (s.pc i) s.registry alloc
              (λ a named. (holders n s.pc a, inv.counted a named)) (inv.own i lt))
        | inr other ↦ rw other (
            Own-other s.registry next.1 (s.pc j)
              (λ mine.
                advance-IsUntouched s.registry (held (s.pc j)) mine.some mine.outside env (s.pc i)
                  (alloc s.registry.entries) inv.valid (inv.own i lt)
                  (λ nobody. omega (arith, nobody, mine.single))
                  (not_held j lt' (ne_of_== i j other) mine))
              (inv.own j lt'))
      ]

    pub Step-IsSound : {s t : System g.Table} → Step env n s t → IsSound n s → IsSound n t
    Step-IsSound {s} (pick i lt go) inv = record {
      valid = advance-IsValid env (s.pc i) s.registry inv.valid (inv.own i lt);
      counted = step-Counted inv i lt;
      own = step-Own inv i lt;
    }

    pub Run-IsSound : {s t : System g.Table} {m : ℕ} → IsSound n s → Run env n s m t → IsSound n t
    Run-IsSound inv stay = inv
    Run-IsSound inv (then_step run step) = Step-IsSound step (Run-IsSound inv run)

  begins-held : (p : Pc) (a : ℕ) → a ≢ 0 → begins_call p ≡ true → one (held p) a ≡ 0
  begins-held p a named h = ground (arith, h)

  begins-Own : (r : Registry g.Table) (p : Pc) → begins_call p ≡ true → Own r p
  begins-Own r p h = ground (arith, h)

  pub IsStart-IsSound : {n : ℕ} {s : System g.Table} → IsStart n s → IsSound n s
  IsStart-IsSound {n} {s} start = record {
    valid = start.rest.valid;
    counted = λ a named.
        let nobody : holders n s.pc a ≡ 0 =
          total-zero (λ p. one (held p) a) s.pc n
            (λ i lt. begins-held (s.pc i) a named (start.begins i lt)) in
        rw nobody (start.rest.counted a named);
    own = λ i lt. begins-Own s.registry (s.pc i) (start.begins i lt);
  }

  -- Where the kernel gives out no object that is still referenced: whatever `n` threads, all of
  -- them about to enter FltHookVnodeVop, FltUnHookVnodeVop or FltGetOriginalVnodeOp on a registry
  -- at rest, have done in any interleaving, the retain count of the entry at `a`, not 0, is the
  -- number of the threads that hold it, and one more where it is the datum of a key of the
  -- table, which is then the only such key; so an entry that thread `i` is going to use has a
  -- count of at least one.
  pub Run-Counted :
      {env : Env} {n m : ℕ} {s t : System g.Table}
      → IsAllocator env
      → IsStart n s
      → Run env n s m t
      → (a : ℕ) → a ≢ 0
      → (i : ℕ) → i < n
      → Counted t.registry a (holders n t.pc a) × (one (held (t.pc i)) a ≤ references t.registry a)
  Run-Counted {env} {n} {m} {s} {t} alloc start run a named i lt =
      let sound = Run-IsSound env alloc n (IsStart-IsSound start) run in
      let c = sound.counted a named in
      (c, omega (arith, c.counted, total-ge (λ q. one (held q) a) t.pc n i lt))
