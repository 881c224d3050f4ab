-- ===== src/Hook/Threads/Loops.antt =====
-- What the loops of hooking leave alone, whatever the layout of the vector.
use mac_osx_file_system_filt.Base.{ℕ, ◌≡◌, refl, ◌∙◌, List, [], ◌∷◌, arith}
use mac_osx_file_system_filt.Hook.Entry.{
  FltVnodeHookEntry, set_original_vop, set_original_vop_as_not_hooked,
}
use mac_osx_file_system_filt.Hook.Loop.{hook_loop, hook_one}
use mac_osx_file_system_filt.Hook.Registry.{Env, Vtype}
use mac_osx_file_system_filt.Vnop.Tables.{VopFunc, HookFunction, VnodeopvEntryDesc}

-- Whatever the layout, the hooking loop leaves the counters of the entry.
module _ (env : Env) (v_op : ℕ) (vtype : Vtype) where
  hook_one-counters :
      (d : VnodeopvEntryDesc HookFunction) (e : FltVnodeHookEntry) (words : ℕ → VopFunc)
      → ((hook_one env v_op vtype d (e, words)).0.retain_count ≡ e.retain_count)
        × ((hook_one env v_op vtype d (e, words)).0.v_node_counter ≡ e.v_node_counter)
  unfolding hook_one set_original_vop set_original_vop_as_not_hooked
  hook_one-counters d e words = ground arith

  pub hook_loop-counters :
      (ds : List (VnodeopvEntryDesc HookFunction)) (e : FltVnodeHookEntry) (words : ℕ → VopFunc)
      → ((hook_loop env v_op vtype ds (e, words)).0.retain_count ≡ e.retain_count)
        × ((hook_loop env v_op vtype ds (e, words)).0.v_node_counter ≡ e.v_node_counter)
  unfolding hook_loop
  hook_loop-counters [] e words = (refl, refl)
  hook_loop-counters (d ∷ ds) e words =
      let step = hook_one-counters d e words in
      let (e', words') = hook_one env v_op vtype d (e, words) in
      let rest = hook_loop-counters ds e' words' in (rest.0 ∙ step.0, rest.1 ∙ step.1)
