-- ===== src/Hook/Balance.antt =====
-- Several vnodes of one operation vector: hooked one after the other, and unhooked as often.
use mac_osx_file_system_filt.Base.{
  ℕ, ◌+◌, ◌-◌, ◌%◌, ◌^◌, ◌<◌, ◌≡◌, ◌≢◌, refl, ◌∙◌, All, List, [], ◌∷◌, length, arith, ==_refl, suc,
  ap,
}
use mac_osx_file_system_filt.Hook.Guards.{
  IsEligible, IsUnhookable, flt_hook_vnode_vop-eligible, flt_unhook_vnode_vop-unhookable,
  hooked_if_success-code,
}
use mac_osx_file_system_filt.Hook.HashTable.{HashTable}
use mac_osx_file_system_filt.Hook.Located.{IsOutside, slot_cases}
use mac_osx_file_system_filt.Hook.Ops.{
  flt_hook_vnode_vop, flt_unhook_vnode_vop, hook_vector, unhook_vector,
}
use mac_osx_file_system_filt.Hook.Registry.{Env, Registry, get_vnode_op_vector}
use mac_osx_file_system_filt.Hook.Vector.{IsHooked, IsLaidOut, slots}
use mac_osx_file_system_filt.Hook.Vector.Again.{hook_again}
use mac_osx_file_system_filt.Hook.Vector.Fresh.{IsFresh, fresh, hook_fresh}
use mac_osx_file_system_filt.Hook.Vector.Unhook.{unhook_one_of_many, unhook_last}
use mac_osx_file_system_filt.Vnop.Tables.{VopFunc, vop_not_hooked}

module _ ⦃g : HashTable⦄ (env : Env) where
  -- FltHookVnodeVop on each of these vnodes in turn.
  pub hook_each : List ℕ → Registry g.Table → Registry g.Table
  hook_each [] r = r
  hook_each (v ∷ vs) r = hook_each vs (flt_hook_vnode_vop env r v).2

  -- FltUnHookVnodeVop on each of these vnodes in turn.
  pub unhook_each : List ℕ → Registry g.Table → Registry g.Table
  unhook_each [] r = r
  unhook_each (v ∷ vs) r = unhook_each vs (flt_unhook_vnode_vop env r v)

-- The vnodes are eligible, and have one operation vector.
abbrev pub Share : Env → ℕ → List ℕ → Type 0
Share env v_op vs = All (λ v. IsEligible env v × (get_vnode_op_vector env v ≡ v_op)) vs

-- The vnodes can be unhooked, and have one operation vector.
abbrev pub MayLeave : Env → ℕ → List ℕ → Type 0
MayLeave env v_op vs = All (λ v. IsUnhookable env v × (get_vnode_op_vector env v ≡ v_op)) vs

module _ ⦃g : HashTable⦄ (env : Env) (v_op : ℕ) where
  pub flt_hook-vector :
      (r : Registry g.Table) (v : ℕ)
      → IsEligible env v
      → get_vnode_op_vector env v ≡ v_op
      → (flt_hook_vnode_vop env r v).2 ≡ (hook_vector env v v_op r).1
  flt_hook-vector r v ok same =
      rw (flt_hook_vnode_vop-eligible r ok, same)
        (hooked_if_success-code (hook_vector env v v_op r)).1

  pub flt_unhook-vector :
      (r : Registry g.Table) (v : ℕ)
      → IsUnhookable env v
      → get_vnode_op_vector env v ≡ v_op
      → flt_unhook_vnode_vop env r v ≡ unhook_vector env v_op r
  flt_unhook-vector r v ok same = rw (flt_unhook_vnode_vop-unhookable r ok, same)

  -- The vector is restored, no word but its slots differs from `words`, the table has no entry
  -- for it, and the entry object `e` has no reference left.
  pub record IsRestored (before : ℕ → VopFunc) (words : ℕ → VopFunc) (e : ℕ) (s : Registry g.Table)
      : Type 0 where
    pub restored : All (λ l. s.words l.address ≡ before l.address) (slots env v_op)
    pub outside : (a : ℕ) → IsOutside a (slots env v_op) → s.words a ≡ words a
    pub gone : g.ght_get s.table v_op ≡ 0
    pub freed : (s.entries e).retain_count ≡ 0

  IsRestored-of_same :
      {before words words' : ℕ → VopFunc} {e e' : ℕ} {s : Registry g.Table}
      → words ≡ words'
      → e ≡ e'
      → IsRestored before words e s
      → IsRestored before words' e' s
  IsRestored-of_same p q back = rw (← p, ← q) back

  module _ {before : ℕ → VopFunc} where
    -- Each vnode of a hooked vector adds one to its count and changes nothing else.
    pub hook_each-IsHooked :
        (vs : List ℕ) (n : ℕ) (r : Registry g.Table)
        → Share env v_op vs
        → IsHooked env v_op before n r
        → n + length vs < 2 ^ 32
        → IsHooked env v_op before (n + length vs) (hook_each env vs r)
          × ((hook_each env vs r).words ≡ r.words)
          × ((hook_each env vs r).table ≡ r.table)
    unfolding hook_each
    hook_each-IsHooked [] n r share h small =
        let e : n + 0 ≡ n = omega arith in rw e (h, refl, refl)
    hook_each-IsHooked (v ∷ vs) n r share h small =
        let (_, words, table, next) = hook_again h v in
        let e : (n + 1) % 2 ^ 32 ≡ n + 1 = omega arith in
        let e' : n + suc (length vs) ≡ n + 1 + length vs = omega arith in
        let s = flt_hook-vector r v share.0.0 share.0.1 in
        let (last, words', table') =
          hook_each-IsHooked vs (n + 1) _ share.1 (rw (← s, e) at next) (omega arith) in
        rw e' (last, words' ∙ ap (λ x. x.words) s ∙ words, table' ∙ ap (λ x. x.table) s ∙ table)

    -- Unhooking as many vnodes as are counted restores the vector.
    pub unhook_each-IsRestored :
        (v : ℕ) (vs : List ℕ) (n : ℕ) (r : Registry g.Table)
        → MayLeave env v_op (v ∷ vs)
        → g.IsValid r.table
        → IsLaidOut env v_op
        → All (λ l. before l.address ≢ vop_not_hooked) (slots env v_op)
        → IsHooked env v_op before n r
        → n ≡ 1 + length vs
        → n < 2 ^ 32
        → IsRestored before r.words (g.ght_get r.table v_op) (unhook_each env (v ∷ vs) r)
    unfolding unhook_each
    unhook_each-IsRestored v [] n r share valid laid plain h count small =
        let (back, outside, lookups, freed, _) = unhook_last h valid laid plain (omega arith) in
        rw (flt_unhook-vector r v share.0.0 share.0.1) (record {
          restored = back;
          outside = outside;
          gone = rw (lookups v_op, ==_refl v_op);
          freed = freed;
        })
    unhook_each-IsRestored v (w ∷ vs) n r share valid laid plain h count small =
        let (words, table, next) = unhook_one_of_many h (omega arith) (omega arith) small in
        let s = unhook_vector env v_op r in
        let rest =
          unhook_each-IsRestored w vs (n - 1) s share.1 (rw table valid) laid plain next
            (omega arith) (omega arith) in
        rw (flt_unhook-vector r v share.0.0 share.0.1)
          (IsRestored-of_same words (ap (λ t. g.ght_get t v_op) table) rest)

  hook_each-cons :
      (r : Registry g.Table) (v : ℕ) (vs : List ℕ)
      → IsEligible env v
      → get_vnode_op_vector env v ≡ v_op
      → hook_each env (v ∷ vs) r ≡ hook_each env vs (hook_vector env v v_op r).1
  unfolding hook_each
  hook_each-cons r v vs ok same = ap (hook_each env vs) (flt_hook-vector r v ok same)

  -- Where the slots of the vector are different wired words and there is room for an entry:
  -- after the first vnode of a vector that is not in the table, and then any further ones, fewer
  -- than 2 ^ 32 in all, have been hooked, the vector is hooked, counts all of them and keeps
  -- what its slots held before; a word `a` outside the slots and the lookup of another vector
  -- `w` are as before.
  pub hook_each-fresh :
      (v : ℕ) (vs : List ℕ) (r : Registry g.Table)
      → Share env v_op (v ∷ vs)
      → 1 + length vs < 2 ^ 32
      → IsLaidOut env v_op
      → IsFresh env v v_op r
      → (a : ℕ) → IsOutside a (slots env v_op)
      → (w : ℕ) → v_op ≢ w
      → let s = hook_each env (v ∷ vs) r in
        IsHooked env v_op r.words (1 + length vs) s
        × (s.words a ≡ r.words a)
        × (g.ght_get s.table w ≡ g.ght_get r.table w)
  hook_each-fresh v vs r share small laid f a out w other =
      let (_, first, outside, lookups, _, _) =
        hook_fresh env v v_op r f share.0.0.interesting laid in
      let (last, words, table) = hook_each-IsHooked vs 1 _ share.1 first small in
      rw (hook_each-cons r v vs share.0.0 share.0.1)
        (last, ap (λ f. f a) words ∙ outside a out, ap (λ t. g.ght_get t w) table ∙ lookups w other)

  -- Where the slots of the vector are different wired words that do not hold the mark, the table
  -- has no entry for the vector, and memory and the table have room for one: after any number of
  -- eligible vnodes of the vector below 2 ^ 32 have been hooked, and then as many unhooked, in
  -- any order and recycled or not, every word of memory is as it was before the first of them,
  -- the vector has no entry in the table, and the entry object has no reference left.
  pub unhook_each-hook_each :
      (v : ℕ) (vs : List ℕ) (w : ℕ) (ws : List ℕ) (r : Registry g.Table)
      → Share env v_op (v ∷ vs)
      → MayLeave env v_op (w ∷ ws)
      → length ws ≡ length vs
      → 1 + length vs < 2 ^ 32
      → IsLaidOut env v_op
      → IsFresh env v v_op r
      → All (λ l. r.words l.address ≢ vop_not_hooked) (slots env v_op)
      → let s = unhook_each env (w ∷ ws) (hook_each env (v ∷ vs) r) in
        ((a : ℕ) → s.words a ≡ r.words a)
        × (g.ght_get s.table v_op ≡ 0)
        × ((s.entries (fresh env v v_op r)).retain_count ≡ 0)
  unfolding hook_each
  unhook_each-hook_each v vs w ws r share share' same small laid f plain =
      let (_, first, outside, _, valid, is_fresh) =
        hook_fresh env v v_op r f share.0.0.interesting laid in
      let (last, words, table) = hook_each-IsHooked vs 1 _ share.1 first small in
      let all =
        unhook_each-IsRestored w ws (1 + length vs) _ share' (rw table valid) laid plain last
          (rw same refl) small in
      rw (flt_hook-vector r v share.0.0 share.0.1) (
        λ a.
            slot_cases (λ a. _ ≡ r.words a) (slots env v_op) a all.restored
              (λ out. all.outside a out ∙ ap (λ f. f a) words ∙ outside a out),
        all.gone,
        rw (table, is_fresh) at all.freed,
      )
