-- ===== src/Ght/Instance.antt =====
-- The hash table of FsdFilter/CommonHashTable.cpp fills the interface on which the hook registry
-- of FsdFilter/VNodeHook.cpp stands: a table together with its memory, and keys of eight bytes.
use mathlib.Core.Option.{some-injective, none-ne-some}
use mac_osx_file_system_filt.Base.{
  ℕ, ◌≡◌, ◌≢◌, ◌⊎◌, inl, inr, refl, sym, subst, ◌∙◌, Bool, false, if◌then◌else◌, ◌==◌, Option, none,
  some, Option-cases,
}
use mac_osx_file_system_filt.Hook.HashTable.{
  GhtStatusCode, ght_ok, ght_already_in_hash, ght_error, HashTable,
}
use mac_osx_file_system_filt.Ght.{GhtHashKey, Memory, GhtHashTable}
use mac_osx_file_system_filt.Ght.Correct.{
  IsValid, Holds, insert-Holds, insert-refused, remove-outcome,
}
use mac_osx_file_system_filt.Ght.Create.{create-Holds}
use mac_osx_file_system_filt.Ght.Iterate.{ght_insert}
use mac_osx_file_system_filt.Ght.Table.{Kernel, BucketFree, ght_create, ght_get, ght_remove}

-- hk_fill with sizeof(vnodeop_t*)
abbrev pub pointer_key : ℕ → GhtHashKey
pointer_key k = record { i_size = 8; key_data = k }

-- No entry has been made.
abbrev pub no_memory_used : Memory
no_memory_used = record {
  p_next = λ p. 0;
  p_prev = λ p. 0;
  key = λ p. pointer_key 0;
  p_data = λ p. 0;
  p_older = λ p. 0;
  p_newer = λ p. 0;
  live = λ p. false;
  allocations = 0;
}

GhtStatusCode-cases : (c : GhtStatusCode) → (c ≡ ght_ok) ⊎ (c ≢ ght_ok)
GhtStatusCode-cases ght_ok = inl refl
GhtStatusCode-cases ght_already_in_hash = inr (λ e. cc)
GhtStatusCode-cases ght_error = inr (λ e. cc)

module _ (kernel : Kernel) (fn : BucketFree)
    (gives_free : (b : Bool) (live : ℕ → Bool)
      → kernel.mac_kalloc b live ≢ 0
      → live (kernel.mac_kalloc b live) ≡ false) where
  abbrev pub Table : Type 0
  Table = GhtHashTable × Memory

  abbrev pub create : ℕ → Bool → Option Table
  create n b = elim ((ght_create kernel n b).0) [ none ↦ none | some t ↦ some (t, no_memory_used) ]

  pub create-some :
      (n : ℕ) (b : Bool) {s : Table}
      → create n b ≡ some s
      → ((ght_create kernel n b).0 ≡ some s.0) × Holds s.0 s.1 kernel.mac_kalloc (λ k. 0)
  create-some n b {s} h = elim (Option-cases ((ght_create kernel n b).0)) [
    | inl e ↦ absurd (none-ne-some s (sym (rw (create, e) refl) ∙ h))
    | inr (t, e) ↦
        let made = some-injective _ s (sym (rw (create, e) refl) ∙ h) in
        subst
          (λ s. ((ght_create kernel n b).0 ≡ some s.0) × Holds s.0 s.1 kernel.mac_kalloc (λ k. 0))
          made (e, create-Holds kernel n b t no_memory_used gives_free e)
  ]

  abbrev pub insert : Table → ℕ → ℕ → GhtStatusCode × Table
  insert s d k = let r = ght_insert kernel fn s.0 s.1 d (pointer_key k) in (r.0, (r.1, r.2))

  abbrev pub remove : Table → ℕ → ℕ × Table
  remove s k = let r = ght_remove s.0 s.1 (pointer_key k) in (r.0, (r.1, r.2))

  abbrev pub get : Table → ℕ → ℕ
  get s k = (ght_get s.0 s.1 (pointer_key k)).0

  -- The table is valid, and still has the allocator that ght_create gave it.
  abbrev pub IsSound : Table → Type 0
  IsSound s = IsValid s.0 s.1 × (s.0.fn_alloc ≡ kernel.mac_kalloc)

  pub insert-IsSound : (s : Table) (d k : ℕ) → IsSound s → d ≢ 0 → IsSound (insert s d k).1
  insert-IsSound s d k h ne = elim (GhtStatusCode-cases (insert s d k).0) [
    | inl ok ↦
        let after = insert-Holds s.0 s.1 h.0 (pointer_key k) kernel fn d ne ok in
        (after.valid, after.allocator ∙ h.1)
    | inr failed ↦
        let same = insert-refused s.0 s.1 h.0 (pointer_key k) kernel fn d failed in
        rw (same.0, same.1) h
  ]

  pub get-insert :
      (s : Table) (d k j : ℕ)
      → IsSound s
      → d ≢ 0
      → (insert s d k).0 ≡ ght_ok
      → get (insert s d k).1 j ≡ (if k == j then d else get s j)
  get-insert s d k j h ne ok =
      (insert-Holds s.0 s.1 h.0 (pointer_key k) kernel fn d ne ok).gives (pointer_key j)

  pub get-insert_failed :
      (s : Table) (d k j : ℕ)
      → IsSound s
      → (insert s d k).0 ≢ ght_ok
      → get (insert s d k).1 j ≡ get s j
  get-insert_failed s d k j h failed =
      let same = insert-refused s.0 s.1 h.0 (pointer_key k) kernel fn d failed in
      rw (same.0, same.1) refl

  instance abbrev pub ght_table : HashTable
  ght_table = record {
    Table = Table;
    IsValid = IsSound;
    ght_create = create;
    ght_get = get;
    ght_insert = insert;
    ght_remove = remove;
    create-IsValid = λ n b h. ((create-some n b h).1.valid, (create-some n b h).1.allocator);
    get-create = λ n b h k. (create-some n b h).1.gives (pointer_key k);
    insert-IsValid = insert-IsSound;
    get-insert = get-insert;
    get-insert_failed = get-insert_failed;
    remove-get = λ s k h. (remove-outcome s.0 s.1 h.0 (pointer_key k)).0;
    remove-IsValid = λ s k h.
        let after = (remove-outcome s.0 s.1 h.0 (pointer_key k)).1 in
        (after.valid, after.allocator ∙ h.1);
    get-remove = λ s k j h. (remove-outcome s.0 s.1 h.0 (pointer_key k)).1.gives (pointer_key j);
  }
