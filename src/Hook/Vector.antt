-- ===== src/Hook/Vector.antt =====
-- What it means that an operation vector is hooked, for FltHookVnodeVop and FltUnHookVnodeVop.
pub mod Again
pub mod Unhook
pub mod Fresh
use mac_osx_file_system_filt.Base.{ℕ, ◌≡◌, ◌≢◌, All, List}
use mac_osx_file_system_filt.Hook.HashTable.{HashTable}
use mac_osx_file_system_filt.Hook.Located.{Located, located, IsApart, AllWired}
use mac_osx_file_system_filt.Hook.Registry.{Env, Registry}
use mac_osx_file_system_filt.Vnop.Tables.{VopFunc, hook, vop_not_hooked, vop_hook_entries}

-- The hooked operations that have a slot in the vector.
abbrev pub slots : Env → ℕ → List Located
slots env v_op = located env v_op vop_hook_entries

-- The layout that FltGetVnodeLayout is to find: the slots are different words, all of them wired.
pub record IsLaidOut (env : Env) (v_op : ℕ) : Type 0 where
  pub apart : IsApart (slots env v_op)
  pub wired : AllWired env (slots env v_op)

module _ ⦃g : HashTable⦄ where
  -- The vector is hooked and counts `n` vnodes; `before` holds the words before it was hooked.
  pub record IsHooked (env : Env) (v_op : ℕ) (before : ℕ → VopFunc) (n : ℕ) (r : Registry g.Table)
      : Type 0 where
    pub found : g.ght_get r.table v_op ≢ 0
    pub retained : (r.entries (g.ght_get r.table v_op)).retain_count ≡ 1
    pub counted : (r.entries (g.ght_get r.table v_op)).v_node_counter ≡ n
    pub kept :
        All
          (λ l. (r.entries (g.ght_get r.table v_op)).orig_vop l.indx ≡ before l.address)
          (slots env v_op)
    pub hooks : All (λ l. r.words l.address ≡ hook l.function) (slots env v_op)
