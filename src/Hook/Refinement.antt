-- ===== src/Hook/Refinement.antt =====
-- Any sequence of hookings and unhookings of vnodes that share a vector, against its specification:
-- a counter.
use mac_osx_file_system_filt.Base.{
  ℕ, zero, suc, ◌+◌, ◌-◌, ◌%◌, ◌^◌, ◌<◌, ◌≡◌, ◌≢◌, refl, ap, ◌∙◌, All, All-zip, List, [], ◌∷◌,
  length, arith, ==_refl, ◌≤◌, true, false, sym, Bool, Bool-cases, Bool-clash, inl, inr, not, ◌&&◌,
  ◌==◌, if◌then◌else◌, eq_of_==, ne_of_==,
}
use mac_osx_file_system_filt.Hook.Balance.{flt_hook-vector, flt_unhook-vector}
use mac_osx_file_system_filt.Hook.Guards.{IsEligible, IsUnhookable}
use mac_osx_file_system_filt.Hook.HashTable.{HashTable, ght_ok}
use mac_osx_file_system_filt.Hook.Located.{IsOutside}
use mac_osx_file_system_filt.Hook.Lookup.{retrieve-missing}
use mac_osx_file_system_filt.Hook.Ops.{
  flt_hook_vnode_vop, flt_unhook_vnode_vop, hook_vector, unhook_vector, is_of_no_interest,
}
use mac_osx_file_system_filt.Hook.Registry.{Env, Registry, get_vnode_op_vector, is_ok}
use mac_osx_file_system_filt.Hook.Room.{HasNoRoom, ne_of_is_ok, eq_of_is_ok, hook_vector-HasNoRoom}
use mac_osx_file_system_filt.Hook.Vector.{IsHooked, IsLaidOut, slots}
use mac_osx_file_system_filt.Hook.Vector.Again.{hook_again}
use mac_osx_file_system_filt.Hook.Vector.Fresh.{IsFresh, hook_fresh}
use mac_osx_file_system_filt.Hook.Vector.Unhook.{unhook_one_of_many, unhook_last}
use mac_osx_file_system_filt.Vnop.Tables.{VopFunc, vop_not_hooked}

-- A call of FltHookVnodeVop or of FltUnHookVnodeVop on a vnode.
pub data Action : Type 0 where
  hooking unhooking : ℕ → Action

-- The specification: how many vnodes a vector counts after a call. A first one is counted where
-- there is room for an entry, further ones always, and nothing is counted below zero.
abbrev pub count_after : Action → Bool → ℕ → ℕ
count_after (hooking v) room zero = if room then 1 else 0
count_after (hooking v) room (suc n) = suc (suc n)
count_after (unhooking v) room n = n - 1

module _ ⦃g : HashTable⦄ (env : Env) where
  -- The call.
  pub perform : Action → Registry g.Table → Registry g.Table
  perform (hooking v) r = (flt_hook_vnode_vop env r v).2
  perform (unhooking v) r = flt_unhook_vnode_vop env r v

  pub perform_all : List Action → Registry g.Table → Registry g.Table
  perform_all [] r = r
  perform_all (a ∷ actions) r = perform_all actions (perform a r)

module _ ⦃g : HashTable⦄ (env : Env) (v_op : ℕ) where
  -- There is memory for an entry object of the vector, and the hash table takes it.
  abbrev pub has_room : Registry g.Table → Bool
  has_room r =
      let new = env.new_object r.entries in
      not (new == 0) && is_ok (g.ght_insert r.table new v_op).0

  -- The count after a sequence of calls; the registry only says where there is room.
  pub tally : List Action → ℕ → Registry g.Table → ℕ
  tally [] n r = n
  tally (a ∷ actions) n r = tally actions (count_after a (has_room r) n) (perform env a r)

  no_room : (r : Registry g.Table) → has_room r ≡ false → HasNoRoom env v_op r
  no_room r h = elim (Bool-cases (env.new_object r.entries == 0)) [
    | inl null ↦ inl (eq_of_== _ _ null)
    | inr got ↦ inr (ne_of_is_ok _ (rw got at h))
  ]

  room :
      (r : Registry g.Table)
      → has_room r ≡ true
      → (env.new_object r.entries ≢ 0)
        × ((g.ght_insert r.table (env.new_object r.entries) v_op).0 ≡ ght_ok)
  room r h = elim (Bool-cases (env.new_object r.entries == 0)) [
    | inl null ↦ absurd (Bool-clash true refl (sym (rw null at h)))
    | inr got ↦ (ne_of_== _ _ got, eq_of_is_ok _ (rw got at h))
  ]

-- The action may be taken on a vnode of the vector.
abbrev pub IsAllowed : Env → ℕ → Action → Type 0
IsAllowed env v_op (hooking v) = IsEligible env v × (get_vnode_op_vector env v ≡ v_op)
IsAllowed env v_op (unhooking v) = IsUnhookable env v × (get_vnode_op_vector env v ≡ v_op)

module _ ⦃g : HashTable⦄ (env : Env) (v_op : ℕ) (before : ℕ → VopFunc) where
  -- The vector is as it was, or hooked with this count.
  abbrev pub IsCounted : ℕ → Registry g.Table → Type 0
  IsCounted zero r =
      (g.ght_get r.table v_op ≡ 0)
      × All (λ l. r.words l.address ≡ before l.address) (slots env v_op)
  IsCounted (suc n) r = IsHooked env v_op before (suc n) r

  -- The registry stands for the count: the table is well formed, no word outside the vector has
  -- changed, and the vector is hooked just when the count is not zero.
  pub record Represents (n : ℕ) (r : Registry g.Table) : Type 0 where
    pub valid : g.IsValid r.table
    pub outside : (a : ℕ) → IsOutside a (slots env v_op) → r.words a ≡ before a
    pub counted : IsCounted n r

  module _ (laid : IsLaidOut env v_op)
      (plain : All (λ l. before l.address ≢ vop_not_hooked) (slots env v_op)) where
    -- The first vnode, where there is room.
    hook_vector-first :
        (v : ℕ) (r : Registry g.Table)
        → is_of_no_interest env v ≡ false
        → (env.new_object r.entries ≢ 0)
          × ((g.ght_insert r.table (env.new_object r.entries) v_op).0 ≡ ght_ok)
        → Represents 0 r
        → Represents 1 (hook_vector env v v_op r).1
    hook_vector-first v r interesting (allocated, inserted) p =
        let f : IsFresh env v v_op r = record {
          valid = p.valid;
          missing = p.counted.0;
          allocated = allocated;
          inserted = inserted;
        } in
        let (_, h, outside, _, valid, _) = hook_fresh env v v_op r f interesting laid in
        record {
          valid = valid;
          outside = λ a out. outside a out ∙ p.outside a out;
          counted = record {
            found = h.found;
            retained = h.retained;
            counted = h.counted;
            kept = All-zip (slots env v_op) (λ l k b. k ∙ b) h.kept p.counted.1;
            hooks = h.hooks;
          };
        }

    -- The first vnode, where there is no room.
    hook_vector-refused :
        (v : ℕ) (r : Registry g.Table)
        → HasNoRoom env v_op r
        → Represents 0 r
        → Represents 0 (hook_vector env v v_op r).1
    hook_vector-refused v r full p =
        let same = (hook_vector-HasNoRoom env v v_op r p.valid p.counted.0 full).1 in
        record {
          valid = same.valid;
          outside = λ a out. same.words a ∙ p.outside a out;
          counted = (
            same.lookups v_op ∙ p.counted.0,
            All-zip (slots env v_op) (λ l b _. same.words l.address ∙ b) p.counted.1 p.counted.1,
          );
        }

    hook_vector-Represents :
        (v n : ℕ) (r : Registry g.Table)
        → is_of_no_interest env v ≡ false
        → suc n < 2 ^ 32
        → Represents n r
        → Represents (count_after (hooking v) (has_room env v_op r) n) (hook_vector env v v_op r).1
    hook_vector-Represents v zero r interesting small p = elim (Bool-cases (has_room env v_op r)) [
      | inl h ↦ rw h (hook_vector-first v r interesting (room env v_op r h) p)
      | inr h ↦ rw h (hook_vector-refused v r (no_room env v_op r h) p)
    ]
    hook_vector-Represents v (suc n) r interesting small p =
        let (_, words, table, h) = hook_again p.counted v in
        let e : (suc n + 1) % 2 ^ 32 ≡ suc (suc n) = omega (arith, small) in
        record {
          valid = rw table p.valid;
          outside = λ a out. ap (λ w. w a) words ∙ p.outside a out;
          counted = rw e at h;
        }

    unhook_vector-missing :
        (r : Registry g.Table) → g.ght_get r.table v_op ≡ 0 → unhook_vector env v_op r ≡ r
    unfolding unhook_vector
    unhook_vector-missing r missing = rw (retrieve-missing r missing true)

    unhook_vector-Represents :
        (n : ℕ) (r : Registry g.Table)
        → n < 2 ^ 32
        → Represents n r
        → Represents (n - 1) (unhook_vector env v_op r)
    unhook_vector-Represents zero r small p = rw (unhook_vector-missing r p.counted.0) p
    unhook_vector-Represents (suc zero) r small p =
        let (back, outside, lookups, _, valid) = unhook_last p.counted p.valid laid plain refl in
        record {
          valid = valid;
          outside = λ a out. outside a out ∙ p.outside a out;
          counted = (rw (lookups v_op, ==_refl v_op) refl, back);
        }
    unhook_vector-Represents (suc (suc n)) r small p =
        let (words, table, h) = unhook_one_of_many p.counted (omega arith) (omega arith) small in
        let e : suc (suc n) - 1 ≡ suc n = omega arith in
        rw e (record {
          valid = rw table p.valid;
          outside = λ a out. ap (λ w. w a) words ∙ p.outside a out;
          counted = rw e at h;
        })

    perform-Represents :
        (a : Action) (n : ℕ) (r : Registry g.Table)
        → IsAllowed env v_op a
        → suc n < 2 ^ 32
        → Represents n r
        → Represents (count_after a (has_room env v_op r) n) (perform env a r)
    unfolding perform
    perform-Represents (hooking v) n r ok small p =
        rw (flt_hook-vector env v_op r v ok.0 ok.1)
          (hook_vector-Represents v n r ok.0.interesting small p)
    perform-Represents (unhooking v) n r ok small p =
        rw (flt_unhook-vector env v_op r v ok.0 ok.1)
          (unhook_vector-Represents n r (omega (arith, small)) p)

    -- It counts at most one more.
    count_after-le : (a : Action) (b : Bool) (n : ℕ) → count_after a b n ≤ suc n
    count_after-le (hooking v) true zero = omega arith
    count_after-le (hooking v) false zero = omega arith
    count_after-le (hooking v) b (suc n) = omega arith
    count_after-le (unhooking v) b n = omega arith

    -- Where the slots of the vector are different wired words, none of which held the mark of an
    -- operation that is not hooked, any sequence of calls on eligible vnodes of the vector
    -- implements the counter: from a registry that stands for `n`, the calls lead to one that
    -- stands for the tally, as long as the sum of `n` and their number is below the range of the
    -- 32-bit counter. A first vnode is counted where there is room for an entry by then; without
    -- room the vector stays as it is.
    pub perform_all-Represents :
        (actions : List Action) (n : ℕ) (r : Registry g.Table)
        → All (IsAllowed env v_op) actions
        → n + length actions < 2 ^ 32
        → Represents n r
        → Represents (tally env v_op actions n r) (perform_all env actions r)
    unfolding perform_all tally
    perform_all-Represents [] n r ok small p = p
    perform_all-Represents (a ∷ actions) n r ok small p =
        let le = count_after-le a (has_room env v_op r) n in
        perform_all-Represents actions _ _ ok.1 (omega (arith, small, le))
          (perform-Represents a n r ok.0 (omega (arith, small)) p)
