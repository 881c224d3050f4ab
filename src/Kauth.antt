-- ===== src/Kauth.antt =====
-- FsdFilter/Kauth.cpp: the object that listens to the vnode scope of Kernel Authorization, and its
-- callback, which starts the filtering of a vnode.
pub mod Filtering
use mac_osx_file_system_filt.Base.{
  eq_of_==, ne_of_==, arith, ◌≢◌, ℕ, ◌≡◌, refl, Bool, true, false, Bool-cases, inl, inr,
  if◌then◌else◌, ◌==◌, Option, none, some, not, ◌&&◌,
}
use mac_osx_file_system_filt.Hook.HashTable.{HashTable}
use mac_osx_file_system_filt.Hook.Ops.{flt_hook_vnode_vop_and_parent, is_of_no_interest}
use mac_osx_file_system_filt.Hook.Registry.{
  Env, Registry, IoReturn, return_success, return_internal_error,
}

-- KAUTH_RESULT_*
pub data KauthResult : Type 0 where
  kauth_result_allow kauth_result_deny kauth_result_defer : KauthResult

-- FltIOKitKAuthVnodeGate::VnodeAuthorizeCallback
unfoldable pub vnode_authorize_callback :
    ⦃g : HashTable⦄ → Env → Registry g.Table → ℕ → KauthResult × Registry g.Table
vnode_authorize_callback env r vnode =
    if env.vnode_isrecycled vnode
    then (kauth_result_defer, r)
    else if is_of_no_interest env vnode
    then (kauth_result_defer, r)
    else (kauth_result_defer, flt_hook_vnode_vop_and_parent env r vnode)

-- What IOKit and the kernel answer while the gate is set up: the address of the new object or 0,
-- the result of its base class's init(), and the listener or 0.
pub record GateEnv : Type 0 where
  pub new_gate : ℕ
  pub super_init : Bool
  pub kauth_listen_scope : ℕ

-- The members of the gate object, and its reference count.
pub record FltIoKitKauthVnodeGate : Type 0 where
  pub vnode_listener : ℕ
  pub provider : ℕ
  pub retain_count : ℕ

-- FltIOKitKAuthVnodeGate::RegisterVnodeScopeCallback
unfoldable pub register_vnode_scope_callback :
    GateEnv → FltIoKitKauthVnodeGate → IoReturn × FltIoKitKauthVnodeGate
register_vnode_scope_callback k gate =
    let gate' = record gate { vnode_listener = k.kauth_listen_scope } in
    if k.kauth_listen_scope == 0 then (return_internal_error, gate') else (return_success, gate')

-- The gate is returned if its callback was registered, and released otherwise.
unfoldable pub registered :
    IoReturn × FltIoKitKauthVnodeGate
    → Option FltIoKitKauthVnodeGate × Option FltIoKitKauthVnodeGate
registered (return_success, gate) = (some gate, some gate)
registered (_, gate) = (none, some (record gate { retain_count = 0 }))

-- FltIOKitKAuthVnodeGate::withCallbackRegistration: the gate object that is returned, if any, and
-- the object that was allocated, if any, as it is left.
unfoldable pub with_callback_registration :
    GateEnv → ℕ → Option FltIoKitKauthVnodeGate × Option FltIoKitKauthVnodeGate
with_callback_registration k provider =
    let gate : FltIoKitKauthVnodeGate = record {
      vnode_listener = 0;
      provider = 0;
      retain_count = 1;
    } in
    if k.new_gate == 0
    then (none, none)
    else if not k.super_init
    then (none, some (record gate { retain_count = 0 }))
    else registered (register_vnode_scope_callback k (record gate { provider = provider }))

-- The three steps of which the registration consists have succeeded.
abbrev pub IsReady : GateEnv → Type 0
IsReady k = (k.new_gate ≢ 0) × (k.super_init ≡ true) × (k.kauth_listen_scope ≢ 0)

-- What withCallbackRegistration owes its caller: a gate that listens, has the provider and one
-- reference; or none, and then an object that was allocated has been released.
abbrev pub Registered :
    GateEnv → ℕ → Option FltIoKitKauthVnodeGate → Option FltIoKitKauthVnodeGate → Type 0
Registered k provider (some gate) object =
    IsReady k
    × (object ≡ some gate)
    × (gate.vnode_listener ≡ k.kauth_listen_scope)
    × (gate.provider ≡ provider)
    × (gate.retain_count ≡ 1)
Registered k provider none none = k.new_gate ≡ 0
Registered k provider none (some gate) = (IsReady k → ⊥) × (gate.retain_count ≡ 0)

module _ (k : GateEnv) (provider : ℕ) where
  -- withCallbackRegistration returns a gate only if every step has succeeded; otherwise it returns
  -- none, and leaves no reference on an object that it allocated.
  pub with_callback_registration_lem :
      let (result, object) = with_callback_registration k provider in
      Registered k provider result object
  unfolding with_callback_registration registered register_vnode_scope_callback
  with_callback_registration_lem = elim (Bool-cases (k.new_gate == 0)) [
    | inl null ↦ rw null (eq_of_== _ _ null)
    | inr got ↦ elim (Bool-cases k.super_init) [
      | inr bad ↦ rw (got, bad) (λ ready. ground (arith, ready.1), refl)
      | inl good ↦ elim (Bool-cases (k.kauth_listen_scope == 0)) [
        | inl deaf ↦ rw (got, good, deaf) (λ ready. ready.2 (eq_of_== _ _ deaf), refl)
        | inr heard ↦
            rw (got, good, heard)
              ((ne_of_== _ _ got, refl, ne_of_== _ _ heard), refl, refl, refl, refl)
      ]
    ]
  ]
