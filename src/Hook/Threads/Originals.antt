-- ===== src/Hook/Threads/Originals.antt =====
-- Under any interleaving, FltGetOriginalVnodeOp answers with the file system's own function.
use mac_osx_file_system_filt.Base.{
  ℕ, ◌<◌, ◌≡◌, ◌≢◌, refl, sym, subst, ◌∙◌, ap, true, Bool-cases, inl, inr, ◌==◌, update, arith,
  ==_refl, ne_of_==, All-every, All-get_elem?, get_elem?, Option, some, total-ge,
}
use mac_osx_file_system_filt.Hook.HashTable.{HashTable}
use mac_osx_file_system_filt.Hook.Located.{Located}
use mac_osx_file_system_filt.Hook.Registry.{Env, Registry, get_vnode_op_vector}
use mac_osx_file_system_filt.Hook.Threads.{
  Pc, hook_installs, unhook_restores, answered, advance, System, Step, pick, Run, stay, then_step,
}
use mac_osx_file_system_filt.Hook.Threads.Counting.{one, references, Stored-ge}
use mac_osx_file_system_filt.Hook.Threads.Held.{held, Own, IsPrivate}
use mac_osx_file_system_filt.Hook.Threads.Kept.{fills, originals, advance-originals}
use mac_osx_file_system_filt.Hook.Threads.Proper.{
  is_quiet, advance-IsQuiet, IsOriginal, IsProper, IsProper-other, advance-IsProper,
}
use mac_osx_file_system_filt.Hook.Threads.Sound.{
  IsAllocator, IsStart, IsSound, IsStart-IsSound, Step-IsSound, not_held,
}
use mac_osx_file_system_filt.Hook.Threads.Vectors.{
  Vectors, IsFaithful, IsFaithful-kept, locked-IsFaithful, exclusive-IsFaithful,
}
use mac_osx_file_system_filt.Hook.Vector.{slots}
use mac_osx_file_system_filt.Vnop.Tables.{VopFunc}

module _ ⦃g : HashTable⦄ where
  one_self : (e : ℕ) → one e e ≡ 1
  one_self e = rw (==_refl e)

  -- The entry that a thread fills is its own new one.
  fills-Own :
      (r : Registry g.Table) (p : Pc)
      → fills p ≢ 0
      → Own r p
      → IsPrivate r (held p) × (fills p ≡ held p)
  fills-Own r (hook_installs vnode v_op new) live own = (own, refl)
  fills-Own r p live own = absurd (live refl)

  module _ (env : Env) (V : ℕ → Type 0) (before : ℕ → VopFunc) (world : Vectors env V before)
      (alloc : IsAllocator env) (n : ℕ) where
    quiet-IsFaithful :
        (p : Pc) (r : Registry g.Table)
        → g.IsValid r.table
        → ((v : ℕ) → g.ght_get r.table v ≢ 0 → references r (g.ght_get r.table v) ≢ 0)
        → is_quiet p ≡ true
        → fills p ≡ 0
        → (v : ℕ) → IsFaithful env before r v
        → IsFaithful env before (advance env p r).1 v
    quiet-IsFaithful p r valid live quiet nothing_filled v old =
        let same = advance-IsQuiet env p r quiet in
        IsFaithful-kept env before r (advance env p r).1 v (ap (λ t. g.ght_get t v) same.table)
          (All-every (slots env v) (λ l. ap (λ w. w l.address) same.words))
          (λ found.
            advance-originals env p r (g.ght_get r.table v) alloc valid (live v found)
              (λ e. found (sym e ∙ nothing_filled)))
          old

    advance-IsFaithful :
        (p : Pc) (r : Registry g.Table)
        → g.IsValid r.table
        → ((v : ℕ) → g.ght_get r.table v ≢ 0 → references r (g.ght_get r.table v) ≢ 0)
        → Own r p
        → IsProper env V before r p
        → ((v : ℕ) → V v → IsFaithful env before r v)
        → (v : ℕ) → V v
        → IsFaithful env before (advance env p r).1 v
    unfolding advance
    advance-IsFaithful (hook_installs vnode v_op new) r valid live own ok faithful v in_v =
        locked-IsFaithful env before V world r valid faithful vnode v_op new v ok.0 own ok.1 in_v
    advance-IsFaithful (unhook_restores v_op e) r valid live own ok faithful v in_v =
        exclusive-IsFaithful env before V world r valid faithful v_op e v ok in_v
    advance-IsFaithful p r valid live own ok faithful v in_v =
        quiet-IsFaithful p r valid live refl refl v (faithful v in_v)

    -- The invariant of the interleaving: the references are right, the vectors are, and so is
    -- what the threads have found.
    pub record IsRight (s : System g.Table) : Type 0 where
      pub sound : IsSound n s
      pub faithful : (v : ℕ) → V v → IsFaithful env before s.registry v
      pub proper : (i : ℕ) → i < n → IsProper env V before s.registry (s.pc i)

    module _ {s : System g.Table} (inv : IsRight s) (i : ℕ) (lt : i < n) where
      -- An entry in the table is live.
      stored-live :
          (v : ℕ)
          → g.ght_get s.registry.table v ≢ 0
          → references s.registry (g.ght_get s.registry.table v) ≢ 0
      stored-live v found zero =
          let e = g.ght_get s.registry.table v in
          let c = inv.sound.counted e found in
          omega (arith, zero, c.counted, Stored-ge s.registry.table v e c.stored, one_self e)

      abbrev next : Pc × Registry g.Table
      next = advance env (s.pc i) s.registry

      step-IsFaithful : (v : ℕ) → V v → IsFaithful env before next.1 v
      step-IsFaithful =
          advance-IsFaithful (s.pc i) s.registry inv.sound.valid stored-live (inv.sound.own i lt)
            (inv.proper i lt) inv.faithful

      -- What another thread holds is live, and is not what this thread fills.
      other-originals :
          (j : ℕ)
          → j < n
          → i ≢ j
          → held (s.pc j) ≢ 0
          → originals next.1 (held (s.pc j)) ≡ originals s.registry (held (s.pc j))
      other-originals j lt' ne some_entry =
          let e = held (s.pc j) in
          let c = inv.sound.counted e some_entry in
          let holds = total-ge (λ q. one (held q) e) s.pc n j lt' in
          advance-originals env (s.pc i) s.registry e alloc inv.sound.valid
            (λ zero. omega (arith, zero, c.counted, holds, one_self e))
            (λ filled.
              let (mine, same) =
                fills-Own s.registry (s.pc i) (λ z. some_entry (sym filled ∙ z))
                  (inv.sound.own i lt) in
              not_held env alloc n inv.sound j lt' i lt (λ q. ne (sym q)) mine (sym filled ∙ same))

      step-IsProper : (j : ℕ) → j < n → IsProper env V before next.1 (update s.pc i next.0 j)
      step-IsProper j lt' = elim (Bool-cases (i == j)) [
        | inl same ↦
            rw same
              (advance-IsProper env V before (s.pc i) s.registry inv.faithful (inv.proper i lt))
        | inr other ↦ rw other (
            IsProper-other env V before s.registry next.1 (s.pc j)
              (other-originals j lt' (ne_of_== i j other)) (inv.proper j lt'))
      ]

    Step-IsRight : {s t : System g.Table} → Step env n s t → IsRight s → IsRight t
    Step-IsRight (pick i lt go) inv = record {
      sound = Step-IsSound env alloc n (pick i lt go) inv.sound;
      faithful = step-IsFaithful inv i lt;
      proper = step-IsProper inv i lt;
    }

    Run-IsRight : {s t : System g.Table} {m : ℕ} → IsRight s → Run env n s m t → IsRight t
    Run-IsRight inv stay = inv
    Run-IsRight inv (then_step run step) = Step-IsRight step (Run-IsRight inv run)

    -- Each thread is about to enter a call on one of these vectors, and hooks only what is of
    -- interest; each vector is unhooked and as before, or hooked by an entry that keeps it.
    pub record IsReady (s : System g.Table) : Type 0 where
      pub begun : IsStart n s
      pub faithful : (v : ℕ) → V v → IsFaithful env before s.registry v
      pub proper : (i : ℕ) → i < n → IsProper env V before s.registry (s.pc i)

    -- Where the kernel gives out no object that is still referenced, and the slots of the vectors
    -- are different wired words that do not hold the mark: in whatever order the steps of `n`
    -- threads interleave, which hook, unhook and look up vnodes of these vectors, when thread `i`
    -- has the answer of FltGetOriginalVnodeOp for a vnode and the operation of the slot numbered
    -- `k` of the vnode's vector, the answer is the function that was in this slot before any
    -- hooking.
    pub Run-answered :
        {s t : System g.Table} {m : ℕ}
        → IsReady s
        → Run env n s m t
        → (i : ℕ) → i < n
        → (vnode : ℕ) (f : Option VopFunc) (k : ℕ) (l : Located)
        → get_elem? (slots env (get_vnode_op_vector env vnode)) k ≡ some l
        → t.pc i ≡ answered vnode l.indx f
        → f ≡ some (before l.address)
    Run-answered {t = t} ready run i lt vnode f k l place there =
        let inv =
          Run-IsRight
            (record {
              sound = IsStart-IsSound ready.begun;
              faithful = ready.faithful;
              proper = ready.proper;
            })
            run in
        let found : IsOriginal env V before vnode l.indx f =
          subst (λ p. IsProper env V before t.registry p) there (inv.proper i lt) in
        All-get_elem? (λ l'. l.indx ≡ l'.indx → f ≡ some (before l'.address))
          (slots env (get_vnode_op_vector env vnode)) k l found place refl
