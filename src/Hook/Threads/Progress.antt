-- ===== src/Hook/Threads/Progress.antt =====
-- The threads block each other on the lock, but never for good: every call ends, under every
-- interleaving.
use mac_osx_file_system_filt.Base.{
  ℕ, zero, suc, ◌+◌, ◌*◌, ◌≤◌, ◌<◌, ◌≡◌, ◌≢◌, refl, subst, true, Bool-cases, inl, inr, ◌==◌, arith,
  eq_of_==, ne_of_==, total, total-update, total-le, total-positive, total_mono,
}
use mac_osx_file_system_filt.Hook.HashTable.{HashTable}
use mac_osx_file_system_filt.Hook.Registry.{Env, Registry}
use mac_osx_file_system_filt.Hook.Threads.{
  Pc, hook_starts, hook_counts, hook_allocates, hook_waits, hook_installs, unhook_starts,
  unhook_counts, unhook_waits, unhook_restores, lookup_starts, lookup_repeats, lookup_reads,
  releases, returned, answered, advance, System, Step, pick, Run, stay, then_step, over, need,
  reads, owns, readers, owners, may_go, after,
}
use mac_osx_file_system_filt.Hook.Threads.Counting.{one}
use mac_osx_file_system_filt.Hook.Threads.Sound.{
  IsAllocator, IsAtRest, IsStart, IsStart-IsSound, IsSound, Run-IsSound, holders,
}
use mac_osx_file_system_filt.Hook.Threads.Held.{held, Counted}

-- A bound on the steps that a thread has still to take.
abbrev pub work : Pc → ℕ
work (hook_starts vnode v_op) = 5
work (hook_counts e) = 2
work (hook_allocates vnode v_op) = 4
work (hook_waits vnode v_op new) = 3
work (hook_installs vnode v_op new) = 2
work (unhook_starts v_op) = 5
work (unhook_counts v_op e) = 4
work (unhook_waits v_op e) = 3
work (unhook_restores v_op e) = 2
work (lookup_starts vnode indx) = 3
work (lookup_repeats vnode indx) = 2
work (lookup_reads vnode e indx) = 1
work (releases e) = 1
work returned = 0
work (answered vnode indx f) = 0

-- How many of the first `n` threads are in a call.
abbrev pub active : ℕ → (ℕ → Pc) → ℕ
active n pc = total (λ i. elim (need (pc i)) [ over ↦ 0 | _ ↦ 1 ]) n

abbrev remaining : ℕ → (ℕ → Pc) → ℕ
remaining n pc = total (λ i. work (pc i)) n

module _ ⦃g : HashTable⦄ (env : Env) where
  advance-work : (p : Pc) (r : Registry g.Table) → need p ≢ over → work (advance env p r).0 < work p
  unfolding advance
  advance-work (hook_starts vnode v_op) r live = ground arith
  advance-work (hook_counts e) r live = ground arith
  advance-work (hook_allocates vnode v_op) r live = ground arith
  advance-work (hook_waits vnode v_op new) r live = ground arith
  advance-work (hook_installs vnode v_op new) r live = ground arith
  advance-work (unhook_starts v_op) r live = ground arith
  advance-work (unhook_counts v_op e) r live = ground arith
  advance-work (unhook_waits v_op e) r live = ground arith
  advance-work (unhook_restores v_op e) r live = ground arith
  advance-work (lookup_starts vnode indx) r live = ground arith
  advance-work (lookup_repeats vnode indx) r live = ground arith
  advance-work (lookup_reads vnode e indx) r live = ground arith
  advance-work (releases e) r live = ground arith
  advance-work returned r live = absurd (live refl)
  advance-work (answered vnode indx f) r live = absurd (live refl)

  not_over : (p : Pc) (a b : ℕ) → may_go (need p) a b ≡ true → need p ≢ over
  not_over p a b go = ground (arith, go)

  Step-work : {n : ℕ} {s t : System g.Table} → Step env n s t → remaining n t.pc < remaining n s.pc
  Step-work {n} {s} (pick i lt go) =
      let w = advance-work (s.pc i) s.registry (not_over (s.pc i) _ _ go) in
      omega (arith, w, total-update work s.pc n i (advance env (s.pc i) s.registry).0 lt)

  inside-may_go : (p : Pc) (a b : ℕ) → reads p + owns p ≢ 0 → may_go (need p) a b ≡ true
  inside-may_go p a b h = ground (arith, h)

  unfinished-may_go : (p : Pc) → work p ≢ 0 → may_go (need p) 0 0 ≡ true
  unfinished-may_go p h = ground (arith, h)

  -- A thread that is inside a section, or any thread if there is nobody, can go on.
  progress :
      (n : ℕ) (s : System g.Table) → remaining n s.pc ≢ 0 → (t : System g.Table) × Step env n s t
  progress n s live = elim (Bool-cases (readers n s.pc + owners n s.pc == 0)) [
    | inl free ↦
        let (i, lt, h) = total-positive work s.pc n live in
        let nobody = eq_of_== (readers n s.pc + owners n s.pc) 0 free in
        let a : readers n s.pc ≡ 0 = omega (arith, nobody) in
        let b : owners n s.pc ≡ 0 = omega (arith, nobody) in
        (after env n s i, pick i lt (rw (a, b) (unfinished-may_go (s.pc i) h)))
    | inr busy ↦ elim (Bool-cases (owners n s.pc == 0)) [
      | inr owned ↦
          let (i, lt, h) = total-positive owns s.pc n (ne_of_== _ _ owned) in
          (after env n s i, pick i lt (inside-may_go (s.pc i) _ _ (λ z. h (omega (arith, z)))))
      | inl unowned ↦
          let left : readers n s.pc ≢ 0 =
            λ z. omega (arith, z, eq_of_== _ _ unowned, ne_of_== _ _ busy) in
          let (i, lt, h) = total-positive reads s.pc n left in
          (after env n s i, pick i lt (inside-may_go (s.pc i) _ _ (λ z. h (omega (arith, z)))))
    ]
  ]

  Run-remaining :
      {n : ℕ} {s : System g.Table} {m : ℕ} {t : System g.Table}
      → Run env n s m t
      → m + remaining n t.pc ≤ remaining n s.pc
  Run-remaining stay = omega arith
  Run-remaining (then_step run step) = omega (arith, Run-remaining run, Step-work step)

  -- A run that goes on for as long as it can.
  finish :
      (n k : ℕ) {m : ℕ} {s t : System g.Table}
      → remaining n t.pc ≤ k
      → Run env n s m t
      → (l : ℕ) × (u : System g.Table) × Run env n s l u × (remaining n u.pc ≡ 0)
  finish n zero {m} {s} {t} bound run = (m, t, run, omega (arith, bound))
  finish n (suc k) {m} {s} {t} bound run = elim (Bool-cases (remaining n t.pc == 0)) [
    | inl done ↦ (m, t, run, eq_of_== _ _ done)
    | inr live ↦
        let (u, step) = progress n t (ne_of_== _ _ live) in
        finish n k (omega (arith, bound, Step-work step)) (then_step run step)
  ]

  -- A thread that has returned holds nothing.
  one-work : (p : Pc) (a : ℕ) → a ≢ 0 → one (held p) a ≤ work p
  one-work p a named = ground arith

  IsSound-IsAtRest :
      (n : ℕ) (s : System g.Table) → IsSound n s → remaining n s.pc ≡ 0 → IsAtRest s.registry
  IsSound-IsAtRest n s inv done = record {
    valid = inv.valid;
    counted = λ a named.
        let below = total_mono (λ p. one (held p) a) work s.pc n (λ p. one-work p a named) in
        let nobody : holders n s.pc a ≡ 0 = omega (arith, below, done) in
        subst (λ h. Counted s.registry a h) nobody (inv.counted a named);
  }

  over-le : (p : Pc) → (elim (need p) [ over ↦ 0 | _ ↦ 1 ]) ≤ work p
  over-le p = ground arith

  work-le : (p : Pc) → work p ≤ 5
  work-le p = ground arith

  -- Where the kernel gives out no object that is still referenced: `n` threads that start in a
  -- registry at rest take at most 5 * n steps together, whatever the interleaving, and from every
  -- state on the way the steps can be continued until every call has returned and the registry is
  -- at rest again.
  pub Run-ends :
      {n m : ℕ} {s t : System g.Table}
      → IsAllocator env
      → IsStart n s
      → Run env n s m t
      → (m ≤ 5 * n)
        × ((l : ℕ) × (u : System g.Table) × Run env n t l u
            × (active n u.pc ≡ 0)
            × IsAtRest u.registry)
  Run-ends {n} {m} {s} {t} alloc start run =
      let (l, u, rest, done) = finish n (remaining n t.pc) {s = t} (omega arith) stay in
      let sound =
        Run-IsSound env alloc n (Run-IsSound env alloc n (IsStart-IsSound start) run) rest in
      (
        omega (arith, Run-remaining run, total-le work s.pc n 5 work-le),
        (
          l,
          u,
          rest,
          omega (
            arith,
            done,
            total_mono (λ p. elim (need p) [ over ↦ 0 | _ ↦ 1 ]) work u.pc n over-le,
          ),
          IsSound-IsAtRest n u sound (omega (arith, done)),
        ),
      )
