-- ===== src/Ght/Plain.antt =====
-- ght_get, ght_insert and ght_remove of FsdFilter/CommonHashTable.cpp on a well-formed table with
-- the options that ght_create sets: no heuristics, no rehash, no limit.
use mac_osx_file_system_filt.Base.{
  ℕ, ◌≡◌, ◌≢◌, inl, inr, refl, sym, ap, ◌∙◌, Bool, false, Bool-cases, ◌==◌, ◌&&◌, ◌*◌, ◌%◌, ◌^◌,
  ltb, ==_ne, eq_of_==,
}
use mac_osx_file_system_filt.Hook.HashTable.{ght_ok, ght_already_in_hash, ght_error}
use mac_osx_file_system_filt.Ght.{GhtHashKey, Memory, GhtHashTable}
use mac_osx_file_system_filt.Ght.Bucket.{search_in_bucket, apply_heuristics, he_create, allocate}
use mac_osx_file_system_filt.Ght.Find.{search_loop-find}
use mac_osx_file_system_filt.Ght.Iterate.{ght_insert}
use mac_osx_file_system_filt.Ght.Linked.{IsLinked}
use mac_osx_file_system_filt.Ght.Table.{
  Kernel, BucketFree, bucket_of, ght_get, ght_remove, take_out, insert_using, add_entry,
}
use mac_osx_file_system_filt.Ght.Value.{found, value}
use mac_osx_file_system_filt.Ght.View.{View, view}

-- The options that ght_create sets, and an allocator that gives free memory.
pub record IsPlain (v : View) : Type 0 where
  pub no_heuristics : v.i_heuristics ≡ 0
  pub no_rehash : v.i_automatic_rehash ≡ false
  pub no_limit : v.bucket_limit ≡ 0
  pub fresh :
      (b : Bool) (live : ℕ → Bool) → v.fn_alloc b live ≢ 0 → live (v.fn_alloc b live) ≡ false

pub allocate-IsFree :
    (t : GhtHashTable) (m : Memory)
    → IsPlain (view t m)
    → allocate t m ≢ 0
    → m.live (allocate t m) ≡ false
unfolding allocate
allocate-IsFree t m plain =
    elim (Bool-cases ((t.fn_alloc t.non_block m.live == 0) && t.non_block)) [
      | inl e ↦ rw e (plain.fresh false m.live)
      | inr e ↦ rw e (plain.fresh t.non_block m.live)
    ]

he_create-address :
    (t : GhtHashTable) (m : Memory) (d : ℕ) (k : GhtHashKey) → (he_create t m d k).0 ≡ allocate t m
unfolding he_create
he_create-address t m d k = elim (Bool-cases (allocate t m == 0)) [
  | inl e ↦ rw e (sym (eq_of_== _ _ e))
  | inr e ↦ rw e refl
]

module _ (t : GhtHashTable) (m : Memory) (h : IsLinked (view t m)) (k : GhtHashKey) where
  pub search-found : search_in_bucket t m (bucket_of t k) k 0 ≡ (found (view t m) h k, t, m)
  unfolding search_in_bucket apply_heuristics
  search-found =
      let b = bucket_of t k in
      let e =
        search_loop-find m.allocations m 0 (t.pp_entries b) (h.entries b) k (h.short b)
          (h.chained b) in
      elim (Bool-cases (found (view t m) h k == 0)) [
        | inl z ↦ rw (e, eq_of_== _ _ z) refl
        | inr z ↦ rw (e, z) refl
      ]

  -- The options ask for no heuristics.
  pub search-plain :
      IsPlain (view t m)
      → search_in_bucket t m (bucket_of t k) k t.i_heuristics ≡ (found (view t m) h k, t, m)
  search-plain plain =
      ap (search_in_bucket t m (bucket_of t k) k) plain.no_heuristics ∙ search-found

  pub get-value : IsPlain (view t m) → ght_get t m k ≡ (value (view t m) h k, t, m)
  unfolding ght_get
  get-value plain = rw (search-plain plain) refl

  pub remove-missing : found (view t m) h k ≡ 0 → ght_remove t m k ≡ (0, t, m)
  unfolding ght_remove
  remove-missing z = rw (search-found, z) refl

  pub remove-present :
      found (view t m) h k ≢ 0
      → ght_remove t m k ≡ (
        m.p_data (found (view t m) h k),
        (take_out t m (bucket_of t k) (found (view t m) h k)).0,
        (take_out t m (bucket_of t k) (found (view t m) h k)).1,
      )
  unfolding ght_remove
  remove-present z = rw (search-found, ==_ne _ 0 z) refl

  module _ (kernel : Kernel) (fn : BucketFree) (d : ℕ) (plain : IsPlain (view t m)) where
    pub insert-present :
        found (view t m) h k ≢ 0 → ght_insert kernel fn t m d k ≡ (ght_already_in_hash, t, m)
    unfolding ght_insert insert_using
    insert-present z = rw (search-found, ==_ne _ 0 z) refl

    pub insert-no_memory :
        found (view t m) h k ≡ 0
        → allocate t m ≡ 0
        → ght_insert kernel fn t m d k ≡ (ght_error, t, m)
    unfolding ght_insert insert_using he_create
    insert-no_memory z a = rw (search-found, z, a) refl

    pub insert-added :
        found (view t m) h k ≡ 0
        → allocate t m ≢ 0
        → let made = (he_create t m d k).1 in
          let added = add_entry fn t made k (allocate t m) in
          ght_insert kernel fn t m d k ≡ (ght_ok, added.0, added.1)
    unfolding ght_insert insert_using
    insert-added z a =
        let full : (t.i_automatic_rehash && ltb (2 * t.i_size % 2 ^ 32) t.i_items) ≡ false =
          ap (λ b. b && ltb (2 * t.i_size % 2 ^ 32) t.i_items) plain.no_rehash in
        rw (search-found, z, he_create-address t m d k, ==_ne _ 0 a, full) refl
