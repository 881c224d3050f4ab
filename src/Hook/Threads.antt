-- ===== src/Hook/Threads.antt =====
-- Several threads in FltHookVnodeVop, FltUnHookVnodeVop and FltGetOriginalVnodeOp at once, each
-- behind its guards. A thread advances by a section under the lock, or by one action outside it;
-- a shared section in which the thread acts twice, and a section under the exclusive lock, are
-- entered by one step and left by the next, and other threads may advance between the two as far as the
-- lock allows. The lock itself belongs to IOKit: what is assumed of it is that nobody enters while
-- an exclusive holder is inside, and that an exclusive holder enters only when nobody is.
pub mod Loops
pub mod Sections
pub mod Counting
pub mod Held
pub mod Exchange
pub mod Private
pub mod Sound
pub mod Progress
pub mod Alone
pub mod Kept
pub mod Vectors
pub mod Proper
pub mod Originals
use mac_osx_file_system_filt.Base.{
  ℕ, ◌+◌, ◌<◌, ◌≡◌, Bool, true, false, Option, some, if◌then◌else◌, ◌==◌, not, ◌&&◌, update, total,
}
use mac_osx_file_system_filt.Hook.Entry.{get_original_vop, decrement_vnode_counter}
use mac_osx_file_system_filt.Hook.HashTable.{HashTable}
use mac_osx_file_system_filt.Hook.Ops.{
  increment, decrement, allocate_entry, hook_locked, unhook_exclusive, original_from_entry,
  current_vnode_op,
}
use mac_osx_file_system_filt.Hook.Registry.{
  Env, Registry, get_vnode_op_vector, modify_entry, retrieve_entry, release_entry,
}
use mac_osx_file_system_filt.Vnop.Tables.{VopFunc}
use mac_osx_file_system_filt.Vnop.VopEnum.{FltVopEnum}

-- Where a thread is. The arguments are the locals that are still used: the vnode, v_op, and the
-- entry to which the thread holds a reference.
pub data Pc : Type 0 where
  -- FltHookVnodeVop: before the shared lock; inside, with an entry; before the allocation; before
  -- the exclusive lock, with the new entry; inside.
  hook_starts : ℕ → ℕ → Pc
  hook_counts : ℕ → Pc
  hook_allocates : ℕ → ℕ → Pc
  hook_waits : ℕ → ℕ → ℕ → Pc
  hook_installs : ℕ → ℕ → ℕ → Pc
  -- FltUnHookVnodeVop: before the shared lock; before the decrement; before the exclusive lock;
  -- inside.
  unhook_starts : ℕ → Pc
  unhook_counts : ℕ → ℕ → Pc
  unhook_waits : ℕ → ℕ → Pc
  unhook_restores : ℕ → ℕ → Pc
  -- FltGetOriginalVnodeOp: before the first shared lock, before the second, with an entry.
  lookup_starts : ℕ → FltVopEnum → Pc
  lookup_repeats : ℕ → FltVopEnum → Pc
  lookup_reads : ℕ → ℕ → FltVopEnum → Pc
  -- Before the release of an entry that ends a call; after the call; after a lookup of a vnode's
  -- operation, with its result.
  releases : ℕ → Pc
  returned : Pc
  answered : ℕ → FltVopEnum → Option VopFunc → Pc

-- What a thread needs of the lock for its next step.
pub data Need : Type 0 where
  nothing shared exclusive over : Need

abbrev pub need : Pc → Need
need (hook_starts vnode v_op) = shared
need (unhook_starts v_op) = shared
need (lookup_starts vnode indx) = shared
need (lookup_repeats vnode indx) = shared
need (hook_waits vnode v_op new) = exclusive
need (unhook_waits v_op e) = exclusive
need returned = over
need (answered vnode indx f) = over
need _ = nothing

-- The thread is inside a shared section.
abbrev pub reads : Pc → ℕ
reads (hook_counts e) = 1
reads _ = 0

-- The thread holds the lock exclusively.
abbrev pub owns : Pc → ℕ
owns (hook_installs vnode v_op new) = 1
owns (unhook_restores v_op e) = 1
owns _ = 0

module _ ⦃g : HashTable⦄ (env : Env) where
  -- The next step of a thread.
  unfoldable pub advance : Pc → Registry g.Table → Pc × Registry g.Table
  advance (hook_starts vnode v_op) r =
      let (e, r') = retrieve_entry r v_op true in
      (if e == 0 then hook_allocates vnode v_op else hook_counts e, r')
  advance (hook_counts e) r = (releases e, modify_entry r e increment)
  advance (hook_allocates vnode v_op) r =
      let (new, r') = allocate_entry env r in
      (if new == 0 then returned else hook_waits vnode v_op new, r')
  advance (hook_waits vnode v_op new) r = (hook_installs vnode v_op new, r)
  advance (hook_installs vnode v_op new) r = (releases new, (hook_locked env vnode v_op new r).1)
  advance (unhook_starts v_op) r =
      let (e, r') = retrieve_entry r v_op true in
      (if e == 0 then returned else unhook_counts v_op e, r')
  advance (unhook_counts v_op e) r =
      let before = (decrement_vnode_counter (r.entries e)).0 in
      (if before == 1 then unhook_waits v_op e else releases e, modify_entry r e decrement)
  advance (unhook_waits v_op e) r = (unhook_restores v_op e, r)
  advance (unhook_restores v_op e) r =
      let (left, r') = unhook_exclusive env v_op e r in
      (if left == 0 then returned else releases left, r')
  advance (lookup_starts vnode indx) r =
      let (e, r') = retrieve_entry r (get_vnode_op_vector env vnode) true in
      (if e == 0 then lookup_repeats vnode indx else lookup_reads vnode e indx, r')
  advance (lookup_repeats vnode indx) r =
      let (e, r') = retrieve_entry r (get_vnode_op_vector env vnode) true in
      if e == 0
      then (answered vnode indx (current_vnode_op env r' vnode indx), r')
      else (lookup_reads vnode e indx, r')
  advance (lookup_reads vnode e indx) r =
      let (f, r') = original_from_entry e indx r in (answered vnode indx f, r')
  advance (releases e) r = (returned, release_entry r e)
  advance returned r = (returned, r)
  advance (answered vnode indx f) r = (answered vnode indx f, r)

-- How many of the first `n` threads are inside a shared section, and how many own the lock.
abbrev pub readers : ℕ → (ℕ → Pc) → ℕ
readers n pc = total (λ i. reads (pc i)) n

abbrev pub owners : ℕ → (ℕ → Pc) → ℕ
owners n pc = total (λ i. owns (pc i)) n

-- The lock lets a thread with this need go on.
abbrev pub may_go : Need → ℕ → ℕ → Bool
may_go nothing readers owners = true
may_go shared readers owners = owners == 0
may_go exclusive readers owners = owners == 0 && readers == 0
may_go over readers owners = false

-- `n` threads over one registry; a number from `n` on names no thread.
pub record System (T : Type 0) : Type 0 where
  pub registry : Registry T
  pub pc : ℕ → Pc

module _ ⦃g : HashTable⦄ (env : Env) (n : ℕ) where
  -- The state after a step of thread `i`.
  abbrev pub after : System g.Table → ℕ → System g.Table
  after s i =
      let (p, r) = advance env (s.pc i) s.registry in record { registry = r; pc = update s.pc i p }

  pub data Step (s : System g.Table) : System g.Table → Type 0 where
    pick :
        (i : ℕ)
        → i < n
        → may_go (need (s.pc i)) (readers n s.pc) (owners n s.pc) ≡ true
        → Step s (after s i)

  -- The states that some interleaving of the steps leads to, with the number of the steps.
  pub data Run (s : System g.Table) : ℕ → System g.Table → Type 0 where
    stay : Run s 0 s
    then_step : {m : ℕ} {t u : System g.Table} → Run s m t → Step t u → Run s (1 + m) u
