-- ===== src/Driver.antt =====
-- FsdFilter/FsdFilter.cpp: start and free of the driver object, with the static hash table of
-- FsdFilter/VNodeHook.cpp that they create and delete.
use mac_osx_file_system_filt.Base.{
  ne_of_==, arith, ◌≢◌, ℕ, ◌+◌, ◌-◌, ◌≡◌, refl, Bool, true, false, Bool-cases, Option-cases, inl,
  inr, if◌then◌else◌, not, ◌==◌, Option, none, some,
}
use mac_osx_file_system_filt.Hook.HashTable.{HashTable}
use mac_osx_file_system_filt.Hook.Registry.{IoReturn, return_success, is_success}
use mac_osx_file_system_filt.FakeFsd.VnodeLayout.{LayoutEnv, LayoutState, flt_get_vnode_layout}
use mac_osx_file_system_filt.Kauth.{
  GateEnv, FltIoKitKauthVnodeGate, with_callback_registration, with_callback_registration_lem,
  IsReady,
}

-- What the kernel answers while a table is set up: the address of the new object, and the lock.
pub record TableEnv : Type 0 where
  pub new_table : ℕ
  pub io_rw_lock_alloc : ℕ

-- class FltVnodeHooksHashTable
pub record FltVnodeHooksHashTable (T : Type 0) : Type 0 where
  pub hash_table : T
  pub rw_lock : ℕ

-- What start() is answered: in FltGetVnodeLayout, for the table, and for the gate.
pub record StartEnv : Type 0 where
  pub layout : LayoutEnv
  pub table : TableEnv
  pub gate : GateEnv

-- The globals of the layout, the static table, gVnodeGate, whether Instance is set, whether the
-- service is registered, and the driver's own reference count.
pub record ComFsdFilter (T : Type 0) : Type 0 where
  pub layout : LayoutState
  pub s_vnode_hooks_hash_table : Option (FltVnodeHooksHashTable T)
  pub g_vnode_gate : Option FltIoKitKauthVnodeGate
  pub instance_set : Bool
  pub is_registered : Bool
  pub retain_count : ℕ

-- VFSHookInit
unfoldable pub vfs_hook_init : IoReturn
vfs_hook_init = return_success

module _ ⦃g : HashTable⦄ where
  -- FltVnodeHooksHashTable::withSize
  unfoldable pub with_size : TableEnv → ℕ → Bool → Option (FltVnodeHooksHashTable g.Table)
  with_size k size non_block =
      if k.new_table == 0
      then none
      else if k.io_rw_lock_alloc == 0
      then none
      else elim (g.ght_create size non_block) [
        | none ↦ none
        | some t ↦ some (record { hash_table = t; rw_lock = k.io_rw_lock_alloc })
      ]

  abbrev pub is_some : {A : Type 0} → Option A → Bool
  is_some none = false
  is_some (some a) = true

  -- FltVnodeHooksHashTable::CreateStaticTableWithSize
  unfoldable pub create_static_table_with_size :
      TableEnv → ℕ → Bool → ComFsdFilter g.Table → Bool × ComFsdFilter g.Table
  create_static_table_with_size k size non_block d =
      let t = with_size k size non_block in (is_some t, record d { s_vnode_hooks_hash_table = t })

  -- The error exit: the driver is released, and frees what it has in free().
  unfoldable pub exit_on_error : ComFsdFilter g.Table → Bool × ComFsdFilter g.Table
  exit_on_error d = (false, record d { retain_count = d.retain_count - 1 })

  -- com_FsdFilter::start from VFSHookInit on, on the driver at an address.
  unfoldable pub start_hooks : StartEnv → ℕ → ComFsdFilter g.Table → Bool × ComFsdFilter g.Table
  start_hooks k self d =
      if not (is_success vfs_hook_init)
      then exit_on_error d
      else let (created, d') = create_static_table_with_size k.table 8 true d in
        if not created
        then exit_on_error d'
        else let (gate, _) = with_callback_registration k.gate self in
          let d'' = record d' { g_vnode_gate = gate } in
          if not (is_some gate) then exit_on_error d'' else (
            true,
            record d'' {
              instance_set = true;
              is_registered = true;
              retain_count = d''.retain_count + 1;
            },
          )

  -- com_FsdFilter::start
  unfoldable pub start : StartEnv → ℕ → ComFsdFilter g.Table → Bool × ComFsdFilter g.Table
  start k self d =
      let (rc, layout) = flt_get_vnode_layout k.layout d.layout in
      let d' = record d { layout = layout } in
      if not (is_success rc) then exit_on_error d' else start_hooks k self d'

  -- FltVnodeHooksHashTable::DeleteStaticTable, on a table without entries.
  unfoldable pub delete_static_table : ComFsdFilter g.Table → ComFsdFilter g.Table
  delete_static_table d = record d { s_vnode_hooks_hash_table = none }

  -- com_FsdFilter::free
  unfoldable pub free : ComFsdFilter g.Table → ComFsdFilter g.Table
  free d = delete_static_table (record d { g_vnode_gate = none })

  -- A table that is set up has its lock, is well formed and empty.
  pub record IsNewTable (t : FltVnodeHooksHashTable g.Table) : Type 0 where
    pub locked : t.rw_lock ≢ 0
    pub valid : g.IsValid t.hash_table
    pub empty : (v_op : ℕ) → g.ght_get t.hash_table v_op ≡ 0

  created-IsNewTable :
      (k : TableEnv) (size : ℕ) (non_block : Bool) (t : g.Table)
      → k.io_rw_lock_alloc ≢ 0
      → g.ght_create size non_block ≡ some t
      → IsNewTable (record { hash_table = t; rw_lock = k.io_rw_lock_alloc })
  created-IsNewTable k size non_block t lock e = record {
    locked = lock;
    valid = g.create-IsValid size non_block e;
    empty = g.get-create size non_block e;
  }

  -- A new table, or none.
  abbrev pub IsNew : Option (FltVnodeHooksHashTable g.Table) → Type 0
  IsNew none = Unit
  IsNew (some t) = IsNewTable t

  with_size-IsNew :
      (k : TableEnv) (size : ℕ) (non_block : Bool) → IsNew (with_size k size non_block)
  unfolding with_size
  with_size-IsNew k size non_block = elim (Bool-cases (k.new_table == 0)) [
    | inl null ↦ rw null tt
    | inr got ↦ elim (Bool-cases (k.io_rw_lock_alloc == 0)) [
      | inl null ↦ rw (got, null) tt
      | inr lock ↦ elim (Option-cases (g.ght_create size non_block)) [
        | inl null ↦ rw (with_size, got, lock, null) tt
        | inr (t, e) ↦
            rw (with_size, got, lock, e)
              (created-IsNewTable k size non_block t (ne_of_== _ _ lock) e)
      ]
    ]
  ]

  -- What start() has done when it returns true, and when it returns false.
  abbrev pub Started : StartEnv → ℕ → ComFsdFilter g.Table → Bool → ComFsdFilter g.Table → Type 0
  Started k self d true d' =
      ((t : FltVnodeHooksHashTable g.Table) × (d'.s_vnode_hooks_hash_table ≡ some t) × IsNewTable t)
      × ((gate : FltIoKitKauthVnodeGate) × (d'.g_vnode_gate ≡ some gate)
          × IsReady k.gate
          × (gate.provider ≡ self)
          × (gate.retain_count ≡ 1))
      × ((flt_get_vnode_layout k.layout d.layout).0 ≡ return_success)
      × (d'.layout ≡ (flt_get_vnode_layout k.layout d.layout).1)
      × (d'.is_registered ≡ true)
      × (d'.retain_count ≡ d.retain_count + 1)
  Started k self d false d' =
      (d'.g_vnode_gate ≡ none)
      × (d'.layout ≡ (flt_get_vnode_layout k.layout d.layout).1)
      × (d'.instance_set ≡ d.instance_set)
      × (d'.is_registered ≡ d.is_registered)
      × (d'.retain_count ≡ d.retain_count - 1)
      × ((free d').s_vnode_hooks_hash_table ≡ none)

  module _ (k : StartEnv) (self : ℕ) (d : ComFsdFilter g.Table) where
    -- The driver once FltGetVnodeLayout has returned.
    abbrev laid : ComFsdFilter g.Table
    laid = record d { layout = (flt_get_vnode_layout k.layout d.layout).1 }

    start-layout_failed :
        is_success (flt_get_vnode_layout k.layout d.layout).0 ≡ false
        → start k self d ≡ exit_on_error laid
    unfolding start
    start-layout_failed bad = rw bad

    start-layout_known :
        is_success (flt_get_vnode_layout k.layout d.layout).0 ≡ true
        → start k self d ≡ start_hooks k self laid
    unfolding start
    start-layout_known good = rw good

    start-table_failed :
        with_size k.table 8 true ≡ none
        → start_hooks k self d ≡ exit_on_error (record d { s_vnode_hooks_hash_table = none })
    unfolding start_hooks create_static_table_with_size vfs_hook_init
    start-table_failed e = rw e

    module _ (t : FltVnodeHooksHashTable g.Table) (e : with_size k.table 8 true ≡ some t) where
      start-gate_failed :
          (with_callback_registration k.gate self).0 ≡ none
          → start_hooks k self d
            ≡ exit_on_error (record d { s_vnode_hooks_hash_table = some t; g_vnode_gate = none })
      unfolding start_hooks create_static_table_with_size vfs_hook_init
      start-gate_failed no_gate = rw (e, no_gate)

      start-gate_set :
          (gate : FltIoKitKauthVnodeGate)
          → (with_callback_registration k.gate self).0 ≡ some gate
          → start_hooks k self d ≡ (
            true,
            record d {
              s_vnode_hooks_hash_table = some t;
              g_vnode_gate = some gate;
              instance_set = true;
              is_registered = true;
              retain_count = d.retain_count + 1;
            },
          )
      unfolding start_hooks create_static_table_with_size vfs_hook_init
      start-gate_set gate got = rw (e, got)

  success_of : (c : IoReturn) → is_success c ≡ true → c ≡ return_success
  success_of c h = ground arith

  module _ (k : StartEnv) (self : ℕ) (d : ComFsdFilter g.Table) (idle : d.g_vnode_gate ≡ none) where
    -- On a driver without a gate, start() leaves the layout that FltGetVnodeLayout leaves. It
    -- returns true only when FltGetVnodeLayout succeeds, the table has been set up and is empty,
    -- and the gate listens; then one reference is added. Otherwise it returns false without a
    -- gate, gives back one reference and registers nothing, and free() leaves no table.
    pub start_lem : Started k self d (start k self d).0 (start k self d).1
    unfolding exit_on_error free delete_static_table
    start_lem = elim (Bool-cases (is_success (flt_get_vnode_layout k.layout d.layout).0)) [
      | inr bad ↦ rw (start-layout_failed k self d bad) (idle, refl, refl, refl, refl, refl)
      | inl good ↦
          rw (start-layout_known k self d good) (elim (Option-cases (with_size k.table 8 true)) [
            | inl null ↦
                rw (start-table_failed k self (laid k self d) null)
                  (idle, refl, refl, refl, refl, refl)
            | inr (t, e) ↦ elim (Option-cases (with_callback_registration k.gate self).0) [
              | inl no_gate ↦
                  rw (start-gate_failed k self (laid k self d) t e no_gate)
                    (refl, refl, refl, refl, refl, refl)
              | inr (gate, got) ↦
                  let (ready, _, _, provider, one) =
                    rw got at (with_callback_registration_lem k.gate self) in
                  rw (start-gate_set k self (laid k self d) t e gate got) (
                    (t, refl, rw e at (with_size-IsNew k.table 8 true)),
                    (gate, refl, ready, provider, one),
                    success_of _ good,
                    refl,
                    refl,
                    refl,
                  )
            ]
          ])
    ]
