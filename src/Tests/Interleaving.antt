-- ===== src/Tests/Interleaving.antt =====
-- Examples of the theorems on several threads: one hooks, one unhooks, and one looks up.
use mac_osx_file_system_filt.Base.{
  ℕ, ◌≤◌, ◌≡◌, inl, inr, refl, sym, ◌∙◌, Bool-cases, All-every, List, [], ◌∷◌, some, arith,
  get_elem?, if◌then◌else◌, ◌==◌,
}
use mac_osx_file_system_filt.Hook.Entry.{
  set_original_vop, get_original_vop, new_entry, retain, increment_vnode_counter,
}
use mac_osx_file_system_filt.Hook.Located.{Located, located}
use mac_osx_file_system_filt.Hook.Loop.{locate, hook_loop, hook_one, write_wired}
use mac_osx_file_system_filt.Hook.Ops.{
  allocate_entry, hook_locked, install_hooks, original_from_entry,
}
use mac_osx_file_system_filt.Hook.Registry.{
  Env, Registry, add_entry, is_ok, retrieve_entry, get_vnode_op_vector,
}
use mac_osx_file_system_filt.Hook.Threads.{
  hook_starts, unhook_starts, lookup_starts, answered, System, pick, Run, stay, then_step, advance,
  after,
}
use mac_osx_file_system_filt.Hook.Threads.Counting.{absent, one, references}
use mac_osx_file_system_filt.Hook.Threads.Held.{Counted, held}
use mac_osx_file_system_filt.Hook.Threads.Progress.{Run-ends, active}
use mac_osx_file_system_filt.Hook.Threads.Sound.{
  IsAllocator, IsAtRest, IsStart, Run-Counted, holders,
}
use mac_osx_file_system_filt.Tests.{kernel, map_table}
use mac_osx_file_system_filt.Vnop.VopEnum.{vop_read, vop_eq, vop_index}
use mac_osx_file_system_filt.Vnop.Tables.{
  fsd, vnop_read_hook, retrieve_offset_desc, retrieve_entry_by_desc, vop_enum_entries,
  vop_hook_entries,
}
use mac_osx_file_system_filt.Vnop.Desc.{desc_eq, desc_number}
use mac_osx_file_system_filt.Hook.Vector.{slots}
use mac_osx_file_system_filt.Hook.Threads.Vectors.{Vectors}
use mac_osx_file_system_filt.Hook.Threads.Originals.{IsReady, Run-answered}

-- Two addresses for entry objects, given out while they are not referenced.
abbrev allocating : Env
allocating = record kernel {
  new_object = λ entries.
      if (entries 9).retain_count == 0 then 9 else if (entries 10).retain_count == 0 then 10 else 0;
}

allocating-IsAllocator : IsAllocator allocating
allocating-IsAllocator entries some_address = ground arith

-- No entry is referenced, and no vector is hooked.
abbrev resting : Registry (ℕ → ℕ)
resting = record {
  table = λ k. 0;
  entries = λ a. record new_entry { retain_count = 0 };
  words = λ a. fsd a;
  events = [];
}

abbrev three : System (ℕ → ℕ)
three = record {
  registry = resting;
  pc = λ i.
      if i == 0
      then hook_starts 100 4096
      else if i == 1
      then unhook_starts 4096
      else lookup_starts 100 vop_read;
}

three-IsStart : IsStart 3 three
three-IsStart = record {
  rest = record {
    valid = tt;
    counted =
        λ a named. record { kept = 0; stored = absent (λ k e. named (sym e)); counted = refl };
  };
  begins = λ i lt. ground arith;
}

-- The lookup misses; then the first thread misses, too, allocates an entry, takes the lock and
-- installs the hooks; then the lookup finds the entry the second time.
abbrev schedule : List ℕ
schedule = 2 ∷ 0 ∷ 0 ∷ 0 ∷ 0 ∷ 2 ∷ 2 ∷ []

abbrev reached : List ℕ → System (ℕ → ℕ) → System (ℕ → ℕ)
reached [] s = s
reached (i ∷ is) s = reached is (after allocating 3 s i)

abbrev last : System (ℕ → ℕ)
last = reached schedule three

Run-last : Run allocating 3 three 7 last
unfolding advance retrieve_entry get_vnode_op_vector allocate_entry hook_locked add_entry is_ok
    install_hooks
Run-last =
    then_step
      (then_step
        (then_step
          (then_step
            (then_step
              (then_step (then_step stay (pick 2 (omega arith) refl)) (pick 0 (omega arith) refl))
              (pick 0 (omega arith) refl))
            (pick 0 (omega arith) refl))
          (pick 0 (omega arith) refl))
        (pick 2 (omega arith) refl))
      (pick 2 (omega arith) refl)

Run-Counted_example :
    Counted last.registry 9 (holders 3 last.pc 9)
    × (one (held (last.pc 0)) 9 ≤ references last.registry 9)
Run-Counted_example =
    Run-Counted allocating-IsAllocator three-IsStart Run-last 9 (omega arith) 0 (omega arith)

Run-ends_example :
    (7 ≤ 15)
    × ((l : ℕ) × (u : System (ℕ → ℕ)) × Run allocating 3 last l u
        × (active 3 u.pc ≡ 0)
        × IsAtRest u.registry)
Run-ends_example = Run-ends allocating allocating-IsAllocator three-IsStart Run-last

abbrev read_slot : Located
read_slot = record { address = 4176; indx = vop_read; function = vnop_read_hook }

-- The one vector of the example.
abbrev Only : ℕ → Type 0
Only v = v ≡ 4096

only : Vectors allocating Only resting.words
unfolding located locate retrieve_offset_desc retrieve_entry_by_desc desc_eq desc_number
    vop_enum_entries vop_hook_entries vop_eq vop_index
only = record {
  laid = λ v e.
      rw e (record { apart = ((refl, tt), (refl, tt), (tt, tt, tt)); wired = (refl, (refl, tt)) });
  plain = λ v e. rw e (λ e. ground (arith, e), (λ e. ground (arith, e), tt));
  apart = λ v w e e' differ. absurd (differ (e ∙ sym e'));
}

ready : IsReady allocating Only resting.words only allocating-IsAllocator 3 three
unfolding get_vnode_op_vector
ready = record {
  begun = three-IsStart;
  faithful = λ v e. inl (refl, All-every (slots allocating v) (λ l. refl));
  proper = λ i lt. elim (Bool-cases (i == 0)) [
    | inl first ↦ rw first (refl, refl)
    | inr other ↦
        rw other
          (elim (Bool-cases (i == 1)) [ inl second ↦ rw second refl | inr third ↦ rw third refl ])
  ];
}

read_slot-second : get_elem? (slots allocating 4096) 1 ≡ some read_slot
unfolding located locate retrieve_offset_desc retrieve_entry_by_desc desc_eq desc_number
    vop_enum_entries vop_hook_entries
read_slot-second = refl

last-answered : last.pc 2 ≡ answered 100 vop_read (some (fsd 4176))
unfolding advance retrieve_entry get_vnode_op_vector allocate_entry hook_locked add_entry is_ok
    install_hooks original_from_entry get_original_vop retain located locate retrieve_offset_desc
    retrieve_entry_by_desc desc_eq desc_number vop_enum_entries vop_hook_entries hook_loop hook_one
    write_wired set_original_vop vop_eq vop_index increment_vnode_counter new_entry
last-answered = refl

Run-answered_example : some (fsd 4176) ≡ some (fsd 4176)
unfolding get_vnode_op_vector
Run-answered_example =
    Run-answered allocating Only resting.words only allocating-IsAllocator 3 ready Run-last 2
      (omega arith) 100 (some (fsd 4176)) 1 read_slot read_slot-second last-answered
