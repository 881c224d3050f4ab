-- ===== src/Hook/Room.antt =====
-- FltHookVnodeVop on a vector that is not in the table, where there is no room for an entry.
use mac_osx_file_system_filt.Base.{
  ℕ, ◌∙◌, ◌≡◌, ◌≢◌, ◌⊎◌, refl, inl, inr, arith, false, ◌==◌, true, Bool-cases, eq_of_==, ne_of_==,
  ap,
}
use mac_osx_file_system_filt.Hook.HashTable.{HashTable, GhtStatusCode, ght_ok}
use mac_osx_file_system_filt.Hook.Lookup.{retrieve-missing}
use mac_osx_file_system_filt.Hook.Ops.{hook_vector, hook_new, hook_exclusive, hook_locked}
use mac_osx_file_system_filt.Hook.Registry.{
  Env, Registry, return_success, return_no_memory, add_entry, is_ok, release_entry,
}
use mac_osx_file_system_filt.Hook.Vector.Again.{hook_vector-found}
use mac_osx_file_system_filt.Hook.Vector.Fresh.{
  fresh, made, hook_vector-missing, allocate_entry-made, allocate_entry-null,
}

module _ ⦃g : HashTable⦄ where
  -- No memory for an entry object, or the hash table does not take it.
  abbrev pub HasNoRoom : Env → ℕ → Registry g.Table → Type 0
  HasNoRoom env v_op r =
      (env.new_object r.entries ≡ 0)
      ⊎ ((g.ght_insert r.table (env.new_object r.entries) v_op).0 ≢ ght_ok)

  -- The registry looks the same: every word and every lookup, and the table is well formed.
  pub record LooksSame (r s : Registry g.Table) : Type 0 where
    pub words : (a : ℕ) → s.words a ≡ r.words a
    pub lookups : (w : ℕ) → g.ght_get s.table w ≡ g.ght_get r.table w
    pub valid : g.IsValid s.table

  pub LooksSame-refl : (r : Registry g.Table) → g.IsValid r.table → LooksSame r r
  LooksSame-refl r valid = record { words = λ a. refl; lookups = λ w. refl; valid = valid }

  pub ne_of_is_ok : (c : GhtStatusCode) → is_ok c ≡ false → c ≢ ght_ok
  unfolding is_ok
  ne_of_is_ok c h = ground arith

  is_ok-ne : (c : GhtStatusCode) → c ≢ ght_ok → is_ok c ≡ false
  unfolding is_ok
  is_ok-ne c h = ground arith

  pub eq_of_is_ok : (c : GhtStatusCode) → is_ok c ≡ true → c ≡ ght_ok
  unfolding is_ok
  eq_of_is_ok c h = ground arith

  module _ (env : Env) (vnode v_op new : ℕ) (r : Registry g.Table)
      (missing : g.ght_get r.table v_op ≡ 0) where
    hook_exclusive-failed :
        is_ok (g.ght_insert r.table new v_op).0 ≡ false
        → hook_exclusive env vnode v_op new r ≡ (
          return_no_memory,
          release_entry (record r { table = (g.ght_insert r.table new v_op).1 }) new,
        )
    unfolding hook_exclusive hook_locked release_entry add_entry
    hook_exclusive-failed bad = rw (retrieve-missing r missing false, add_entry, bad)

    hook_exclusive-added :
        is_ok (g.ght_insert r.table new v_op).0 ≡ true
        → (hook_exclusive env vnode v_op new r).0 ≡ return_success
    unfolding hook_exclusive hook_locked release_entry add_entry
    hook_exclusive-added good = rw (retrieve-missing r missing false, add_entry, good)

    -- A failed insertion leaves what the table answers.
    hook_exclusive-refused :
        g.IsValid r.table
        → new ≢ 0
        → (g.ght_insert r.table new v_op).0 ≢ ght_ok
        → ((hook_exclusive env vnode v_op new r).0 ≡ return_no_memory)
          × LooksSame r (hook_exclusive env vnode v_op new r).1
    unfolding release_entry
    hook_exclusive-refused valid named bad = rw (hook_exclusive-failed (is_ok-ne _ bad)) (
      refl,
      record {
        words = λ a. refl;
        lookups = λ w. g.get-insert_failed r.table new v_op w valid bad;
        valid = g.insert-IsValid r.table new v_op valid named;
      },
    )

  module _ (env : Env) (vnode v_op : ℕ) (r : Registry g.Table) (valid : g.IsValid r.table) where
    hook_new-HasNoRoom :
        g.ght_get r.table v_op ≡ 0
        → HasNoRoom env v_op r
        → ((hook_new env vnode v_op r).0 ≡ return_no_memory)
          × LooksSame r (hook_new env vnode v_op r).1
    unfolding hook_new
    hook_new-HasNoRoom missing no_room = elim (Bool-cases (fresh env vnode v_op r == 0)) [
      | inl null ↦
          rw (allocate_entry-null env vnode v_op r (eq_of_== _ _ null))
            (refl, LooksSame-refl r valid)
      | inr got ↦
          let named = ne_of_== _ _ got in
          let same =
            hook_exclusive-refused env vnode v_op (fresh env vnode v_op r) (made env vnode v_op r)
              missing valid named (refused named no_room) in
          rw (allocate_entry-made env vnode v_op r named, got)
            (
              same.0,
              record { words = same.1.words; lookups = same.1.lookups; valid = same.1.valid },
            )
    ]
      where
        refused :
            fresh env vnode v_op r ≢ 0
            → HasNoRoom env v_op r
            → (g.ght_insert r.table (fresh env vnode v_op r) v_op).0 ≢ ght_ok
        refused named (inl null) = absurd (named null)
        refused named (inr bad) = bad

    -- Without room, hooking a vector that is not in the table changes nothing that is looked at.
    pub hook_vector-HasNoRoom :
        g.ght_get r.table v_op ≡ 0
        → HasNoRoom env v_op r
        → ((hook_vector env vnode v_op r).0 ≡ return_no_memory)
          × LooksSame r (hook_vector env vnode v_op r).1
    hook_vector-HasNoRoom missing no_room =
        rw (hook_vector-missing env vnode v_op r missing) (hook_new-HasNoRoom missing no_room)

    -- Where there is an object, either the table takes it and the call succeeds, or there is no
    -- room.
    hook_new-room :
        g.ght_get r.table v_op ≡ 0
        → ((hook_new env vnode v_op r).0 ≡ return_success) ⊎ HasNoRoom env v_op r
    unfolding hook_new
    hook_new-room missing = elim (Bool-cases (fresh env vnode v_op r == 0)) [
      | inl null ↦ inr (inl (eq_of_== _ _ null))
      | inr got ↦ elim (Bool-cases (is_ok (g.ght_insert r.table (fresh env vnode v_op r) v_op).0)) [
        | inr bad ↦ inr (inr (ne_of_is_ok _ bad))
        | inl good ↦ inl (
            rw (allocate_entry-made env vnode v_op r (ne_of_== _ _ got), got)
              (hook_exclusive-added env vnode v_op (fresh env vnode v_op r) (made env vnode v_op r)
                missing good))
      ]
    ]

    pub hook_vector_failed :
        (hook_vector env vnode v_op r).0 ≢ return_success
        → ((hook_vector env vnode v_op r).0 ≡ return_no_memory)
          × (g.ght_get r.table v_op ≡ 0)
          × HasNoRoom env v_op r
          × LooksSame r (hook_vector env vnode v_op r).1
    hook_vector_failed failed = elim (Bool-cases (g.ght_get r.table v_op == 0)) [
      | inr found ↦
          absurd (failed (ap (λ x. x.0) (hook_vector-found r (ne_of_== _ _ found) env vnode)))
      | inl null ↦
          let missing = eq_of_== _ _ null in
          elim (hook_new-room missing) [
            | inl good ↦
                absurd
                  (failed (ap (λ x. x.0) (hook_vector-missing env vnode v_op r missing) ∙ good))
            | inr no_room ↦
                let (code, same) = hook_vector-HasNoRoom missing no_room in
                (code, missing, no_room, same)
          ]
    ]
