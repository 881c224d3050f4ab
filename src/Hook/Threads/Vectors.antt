-- ===== src/Hook/Threads/Vectors.antt =====
-- What one step of a thread does to the vectors: the two sections under the exclusive lock install
-- and restore one of them, and no other step touches the words or the lookups.
use mac_osx_file_system_filt.Base.{
  ℕ, ◌≡◌, ◌≢◌, refl, sym, subst, ◌∙◌, ap, false, Bool-cases, inl, inr, if◌then◌else◌, ◌==◌, ==_refl,
  eq_of_==, ne_of_==, All, All-zip, All-every, ◌⊎◌,
}
use mac_osx_file_system_filt.Hook.Entry.{FltVnodeHookEntry, is_hooked_of_ne}
use mac_osx_file_system_filt.Hook.HashTable.{HashTable, ght_ok}
use mac_osx_file_system_filt.Hook.Located.{
  IsOutside, hook_all, hook_loop-hook_all, hook_all-slots, hook_all-outside, unhook_all,
  unhook_loop-unhook_all, unhook_all-slots, unhook_all-outside,
}
use mac_osx_file_system_filt.Hook.Loop.{unhook_loop}
use mac_osx_file_system_filt.Hook.Ops.{
  increment, install_hooks, hook_locked, unhook_exclusive, is_of_no_interest,
}
use mac_osx_file_system_filt.Hook.Registry.{Env, Registry, modify_entry}
use mac_osx_file_system_filt.Hook.Threads.Held.{IsPrivate, if-missing}
use mac_osx_file_system_filt.Hook.Threads.Kept.{
  originals, added-originals, increment-originals, release-originals,
}
use mac_osx_file_system_filt.Hook.Threads.Sections.{
  hook_locked-Locked, found, failed, added, unhook_exclusive-Unlocked, recounted, gone, removed,
  grown, linked, unlinked,
}
use mac_osx_file_system_filt.Hook.Vector.{IsLaidOut, slots}
use mac_osx_file_system_filt.Vnop.Tables.{VopFunc, vop_not_hooked, vop_hook_entries}

-- The vectors on which the calls work, and what their slots held before any of them was hooked:
-- the slots are different wired words, none of them a slot of two vectors, and none holds the mark.
pub record Vectors (env : Env) (V : ℕ → Type 0) (before : ℕ → VopFunc) : Type 0 where
  pub laid : (v : ℕ) → V v → IsLaidOut env v
  pub plain : (v : ℕ) → V v → All (λ l. before l.address ≢ vop_not_hooked) (slots env v)
  pub apart :
      (v w : ℕ) → V v → V w → v ≢ w → All (λ l. IsOutside l.address (slots env w)) (slots env v)

module _ ⦃g : HashTable⦄ (env : Env) (before : ℕ → VopFunc) where
  -- The entry keeps what the slots of the vector held.
  abbrev pub Remembers : Registry g.Table → ℕ → ℕ → Type 0
  Remembers r v e = All (λ l. originals r e l.indx ≡ before l.address) (slots env v)

  -- The vector has no entry, and its slots hold what they held before; or it has one that keeps it.
  abbrev pub IsFaithful : Registry g.Table → ℕ → Type 0
  IsFaithful r v =
      ((g.ght_get r.table v ≡ 0) × All (λ l. r.words l.address ≡ before l.address) (slots env v))
      ⊎ ((g.ght_get r.table v ≢ 0) × Remembers r v (g.ght_get r.table v))

  pub Remembers-kept :
      (r s : Registry g.Table) (v e : ℕ)
      → originals s e ≡ originals r e
      → Remembers r v e
      → Remembers s v e
  Remembers-kept r s v e same old = rw same old

  -- Nothing has changed for the vector.
  pub IsFaithful-kept :
      (r s : Registry g.Table) (v : ℕ)
      → g.ght_get s.table v ≡ g.ght_get r.table v
      → All (λ l. s.words l.address ≡ r.words l.address) (slots env v)
      → (g.ght_get r.table v ≢ 0
          → originals s (g.ght_get r.table v) ≡ originals r (g.ght_get r.table v))
      → IsFaithful r v
      → IsFaithful s v
  IsFaithful-kept r s v get words same (inl (null, old)) =
      inl (get ∙ null, All-zip (slots env v) (λ l p q. p ∙ q) words old)
  IsFaithful-kept r s v get words same (inr (some, old)) =
      inr (rw get some, rw (get, same some) old)

  All-refl :
      (words : ℕ → VopFunc) (v : ℕ) → All (λ l. words l.address ≡ words l.address) (slots env v)
  All-refl words v = All-every (slots env v) (λ l. refl)

  -- The loop of hooking, on a vector that is laid out.
  module _ (vnode v_op new : ℕ) (r : Registry g.Table)
      (interesting : is_of_no_interest env vnode ≡ false) (laid : IsLaidOut env v_op) where
    abbrev installed : Registry g.Table
    installed = install_hooks env vnode v_op r new

    installed-words : (a : ℕ) → IsOutside a (slots env v_op) → installed.words a ≡ r.words a
    unfolding install_hooks
    installed-words a out =
        rw (hook_loop-hook_all env v_op (env.vnode_vtype vnode) _ _ _ interesting laid.wired)
          (hook_all-outside (slots env v_op) (r.entries new) r.words a out)

    installed-entry : installed.entries new ≡ (hook_all (slots env v_op) (r.entries new, r.words)).0
    unfolding install_hooks
    installed-entry = rw (
      ==_refl new,
      hook_loop-hook_all env v_op (env.vnode_vtype vnode) _ _ _ interesting laid.wired,
    )

    installed-originals :
        All (λ l. originals installed new l.indx ≡ r.words l.address) (slots env v_op)
    installed-originals =
        let set = hook_all-slots (slots env v_op) (r.entries new) r.words laid.apart in
        All-zip (slots env v_op) (λ l both _. ap (λ e. e.orig_vop l.indx) installed-entry ∙ both.1)
          set set

  -- The loop of restoring.
  module _ (v_op : ℕ) (e : FltVnodeHookEntry) (words : ℕ → VopFunc) (laid : IsLaidOut env v_op)
      (plain : All (λ l. before l.address ≢ vop_not_hooked) (slots env v_op))
      (kept : All (λ l. e.orig_vop l.indx ≡ before l.address) (slots env v_op)) where
    unhook_loop-kept :
        unhook_loop env v_op e vop_hook_entries words ≡ unhook_all e (slots env v_op) words
    unhook_loop-kept = unhook_loop-unhook_all env v_op e vop_hook_entries words laid.wired (
        All-zip (slots env v_op) (λ l p k. is_hooked_of_ne e l.indx (λ m. p (sym k ∙ m))) plain
          kept)

    restored-slots :
        All
          (λ l. unhook_loop env v_op e vop_hook_entries words l.address ≡ before l.address)
          (slots env v_op)
    restored-slots =
        rw unhook_loop-kept (unhook_all-slots (slots env v_op) e words before laid.apart kept)

    restored-words :
        (a : ℕ)
        → IsOutside a (slots env v_op)
        → unhook_loop env v_op e vop_hook_entries words a ≡ words a
    restored-words a out = rw unhook_loop-kept (unhook_all-outside (slots env v_op) e words a out)

  module _ (V : ℕ → Type 0) (world : Vectors env V before) (r : Registry g.Table)
      (valid : g.IsValid r.table) (faithful : (v : ℕ) → V v → IsFaithful r v) where
    pub missing-words :
        (v : ℕ)
        → V v
        → g.ght_get r.table v ≡ 0
        → All (λ l. r.words l.address ≡ before l.address) (slots env v)
    missing-words v in_v null = elim (faithful v in_v) [
      | inl (_, words) ↦ words
      | inr (some, _) ↦ absurd (some null)
    ]

    pub found-Remembers :
        (v : ℕ) → V v → g.ght_get r.table v ≢ 0 → Remembers r v (g.ght_get r.table v)
    found-Remembers v in_v some = elim (faithful v in_v) [
      | inl (null, _) ↦ absurd (some null)
      | inr (_, kept) ↦ kept
    ]

    module _ (vnode v_op new : ℕ) (interesting : is_of_no_interest env vnode ≡ false)
        (own : IsPrivate r new) (in_v : V v_op) (missing : g.ght_get r.table v_op ≡ 0)
        (good : (g.ght_insert r.table new v_op).0 ≡ ght_ok) where
      abbrev hooked : Registry g.Table
      hooked = install_hooks env vnode v_op (linked env vnode v_op new r) new

      get-hooked :
          (v : ℕ) → g.ght_get hooked.table v ≡ (if v_op == v then new else g.ght_get r.table v)
      unfolding install_hooks
      get-hooked v = g.get-insert r.table new v_op v valid own.some good

      hooked-own : IsFaithful hooked v_op
      hooked-own =
          let hit : g.ght_get hooked.table v_op ≡ new = get-hooked v_op ∙ rw (==_refl v_op) refl in
          let set =
            installed-originals vnode v_op new (linked env vnode v_op new r) interesting
              (world.laid v_op in_v) in
          inr (
            rw hit own.some,
            rw hit
                (All-zip (slots env v_op) (λ l p q. p ∙ q) set (missing-words v_op in_v missing)),
          )

      hooked-IsFaithful : (v : ℕ) → V v → IsFaithful hooked v
      hooked-IsFaithful v in_w = elim (Bool-cases (v_op == v)) [
        | inl same ↦ subst (λ w. IsFaithful hooked w) (eq_of_== v_op v same) hooked-own
        | inr other ↦
            IsFaithful-kept r hooked v (get-hooked v ∙ rw other refl)
              (All-zip (slots env v)
                (λ l out _.
                  installed-words vnode v_op new (linked env vnode v_op new r) interesting
                    (world.laid v_op in_v) l.address out)
                (world.apart v v_op in_w in_v (λ e. ne_of_== v_op v other (sym e)))
                (All-refl r.words v))
              (λ some.
                added-originals env vnode v_op new r (g.ght_get r.table v)
                  (λ e. own.outside v (sym e)))
              (faithful v in_w)
      ]

    module _ (v_op e : ℕ) (in_v : V v_op) (some : g.ght_get r.table v_op ≢ 0) where
      abbrev restored : Registry g.Table
      restored = record (unlinked env v_op e r) {
        words =
            unhook_loop env v_op ((unlinked env v_op e r).entries (g.ght_get r.table v_op))
              vop_hook_entries r.words;
      }

      still : Remembers (unlinked env v_op e r) v_op (g.ght_get r.table v_op)
      still =
          Remembers-kept r (unlinked env v_op e r) v_op (g.ght_get r.table v_op)
            (release-originals r e (g.ght_get r.table v_op)) (found-Remembers v_op in_v some)

      restored-own : IsFaithful restored v_op
      restored-own = inl (
        g.get-remove r.table v_op v_op valid ∙ rw (==_refl v_op) refl,
        restored-slots v_op _ r.words (world.laid v_op in_v) (world.plain v_op in_v) still,
      )

      restored-IsFaithful : (v : ℕ) → V v → IsFaithful restored v
      restored-IsFaithful v in_w = elim (Bool-cases (v_op == v)) [
        | inl same ↦ subst (λ w. IsFaithful restored w) (eq_of_== v_op v same) restored-own
        | inr other ↦
            IsFaithful-kept r restored v (g.get-remove r.table v_op v valid ∙ rw other refl)
              (All-zip (slots env v)
                (λ l out _.
                  restored-words v_op _ r.words (world.laid v_op in_v) (world.plain v_op in_v) still
                    l.address out)
                (world.apart v v_op in_w in_v (λ p. ne_of_== v_op v other (sym p)))
                (All-refl r.words v))
              (λ _. release-originals r e (g.ght_get r.table v)) (faithful v in_w)
      ]

    pub locked-IsFaithful :
        (vnode v_op new v : ℕ)
        → is_of_no_interest env vnode ≡ false
        → IsPrivate r new
        → V v_op
        → V v
        → IsFaithful (hook_locked env vnode v_op new r).1 v
    locked-IsFaithful vnode v_op new v interesting own in_v in_w =
        elim (hook_locked-Locked env vnode v_op new r) [
          | found some q ↦ rw q (
              IsFaithful-kept r (modify_entry r (g.ght_get r.table v_op) increment) v refl
                (All-refl r.words v)
                (λ _. increment-originals r (g.ght_get r.table v_op) (g.ght_get r.table v))
                (faithful v in_w))
          | failed bad q ↦ rw q (
              IsFaithful-kept r (record r { table = grown env vnode v_op new r }) v
                (g.get-insert_failed r.table new v_op v valid bad) (All-refl r.words v) (λ _. refl)
                (faithful v in_w))
          | added missing good q ↦
              rw q (hooked-IsFaithful vnode v_op new interesting own in_v missing good v in_w)
        ]

    pub exclusive-IsFaithful :
        (v_op e v : ℕ) → V v_op → V v → IsFaithful (unhook_exclusive env v_op e r).1 v
    exclusive-IsFaithful v_op e v in_v in_w = elim (unhook_exclusive-Unlocked env v_op e r valid) [
      | recounted q ↦ rw q (faithful v in_w)
      | gone null q ↦ rw q (
          IsFaithful-kept r (unlinked env v_op e r) v
            (g.get-remove r.table v_op v valid ∙ if-missing r.table v_op v null)
            (All-refl r.words v) (λ _. release-originals r e (g.ght_get r.table v))
            (faithful v in_w))
      | removed some q ↦ rw q (restored-IsFaithful v_op e in_v some v in_w)
    ]
