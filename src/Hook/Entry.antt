-- ===== src/Hook/Entry.antt =====
-- The class FltVnodeHookEntry of FsdFilter/VNodeHook.h: the record of one hooked operation vector,
-- with the retain count of its base class OSObject.
use mac_osx_file_system_filt.Base.{
  ℕ, ◌+◌, ◌-◌, ◌%◌, ◌^◌, ◌≡◌, ◌≢◌, Bool, true, false, if◌then◌else◌, arith,
}
use mac_osx_file_system_filt.Vnop.Tables.{VopFunc, null_func, vop_not_hooked, hook, fsd}
use mac_osx_file_system_filt.Vnop.VopEnum.{FltVopEnum, vop_eq}

-- `v_node_counter` is the bit pattern of an SInt32. `retain_count` is the reference count that
-- OSObject keeps; an object is freed when it falls to 0.
pub record FltVnodeHookEntry : Type 0 where
  pub v_node_counter : ℕ
  pub orig_vop : FltVopEnum → VopFunc
  pub retain_count : ℕ

-- newEntry() and init(): a new object has one reference, and bzero clears the array.
unfoldable pub new_entry : FltVnodeHookEntry
new_entry = record { v_node_counter = 0; orig_vop = λ _. null_func; retain_count = 1 }

unfoldable pub get_original_vop : FltVnodeHookEntry → FltVopEnum → VopFunc
get_original_vop e indx = e.orig_vop indx

unfoldable pub set_original_vop : FltVnodeHookEntry → FltVopEnum → VopFunc → FltVnodeHookEntry
set_original_vop e indx orig = record e {
  orig_vop = λ i. if vop_eq indx i then orig else e.orig_vop i;
}

unfoldable pub set_original_vop_as_not_hooked : FltVnodeHookEntry → FltVopEnum → FltVnodeHookEntry
unfolding set_original_vop
set_original_vop_as_not_hooked e indx = set_original_vop e indx vop_not_hooked

is_not_hooked_mark : VopFunc → Bool
is_not_hooked_mark vop_not_hooked = true
is_not_hooked_mark null_func = false
is_not_hooked_mark (hook h) = false
is_not_hooked_mark (fsd a) = false

unfoldable pub is_hooked : FltVnodeHookEntry → FltVopEnum → Bool
unfolding is_not_hooked_mark
is_hooked e indx = elim (is_not_hooked_mark (e.orig_vop indx)) [ true ↦ false | false ↦ true ]

-- OSIncrementAtomic and OSDecrementAtomic wrap at 32 bits; both return the value before.
unfoldable pub increment_vnode_counter : FltVnodeHookEntry → ℕ × FltVnodeHookEntry
increment_vnode_counter e =
    (e.v_node_counter, record e { v_node_counter = (e.v_node_counter + 1) % 2 ^ 32 })

unfoldable pub decrement_vnode_counter : FltVnodeHookEntry → ℕ × FltVnodeHookEntry
decrement_vnode_counter e =
    (e.v_node_counter, record e { v_node_counter = (e.v_node_counter + (2 ^ 32 - 1)) % 2 ^ 32 })

unfoldable pub get_vnode_counter : FltVnodeHookEntry → ℕ
get_vnode_counter e = e.v_node_counter

-- retain() and release() of the base class.
unfoldable pub retain : FltVnodeHookEntry → FltVnodeHookEntry
retain e = record e { retain_count = e.retain_count + 1 }

unfoldable pub release : FltVnodeHookEntry → FltVnodeHookEntry
release e = record e { retain_count = e.retain_count - 1 }

-- What is not the mark counts as hooked.
pub is_hooked_of_ne :
    (e : FltVnodeHookEntry) (i : FltVopEnum) → e.orig_vop i ≢ vop_not_hooked → is_hooked e i ≡ true
unfolding is_hooked
is_hooked_of_ne e i h = ground arith
