-- ===== src/Ght/Correct.antt =====
-- The hash table of FsdFilter/CommonHashTable.cpp as a finite map: ght_insert, ght_get and
-- ght_remove on the tables that ght_create makes.
use mac_osx_file_system_filt.Base.{
  ℕ, ◌≡◌, ◌≢◌, inl, inr, refl, sym, ap, subst, ◌∙◌, Bool, Bool-cases, if◌then◌else◌, ◌==◌, ==_ne,
  eq_of_==, ne_of_==,
}
use mac_osx_file_system_filt.Hook.HashTable.{ght_ok, ght_already_in_hash, ght_error}
use mac_osx_file_system_filt.Ght.{GhtHashKey, same_key, Memory, GhtHashTable}
use mac_osx_file_system_filt.Ght.Bucket.{he_create, allocate}
use mac_osx_file_system_filt.Ght.Find.{same_key-eq, All-Mem}
use mac_osx_file_system_filt.Ght.Inserted.{inserted, insert-IsLinked}
use mac_osx_file_system_filt.Ght.Iterate.{ght_insert}
use mac_osx_file_system_filt.Ght.Linked.{IsLinked}
use mac_osx_file_system_filt.Ght.Plain.{
  IsPlain, allocate-IsFree, get-value, remove-missing, remove-present, insert-present,
  insert-no_memory, insert-added,
}
use mac_osx_file_system_filt.Ght.Removed.{removed, remove-IsLinked}
use mac_osx_file_system_filt.Ght.Table.{
  Kernel, BucketFree, bucket_of, ght_get, ght_remove, take_out, add_entry,
}
use mac_osx_file_system_filt.Ght.Value.{found, value, found-Mem, value-insert, value-remove}
use mac_osx_file_system_filt.Ght.View.{
  View, view, link_view, take_out-view, add_entry-view, he_create-view,
}

pub record IsValid (t : GhtHashTable) (m : Memory) : Type 0 where
  pub linked : IsLinked (view t m)
  pub plain : IsPlain (view t m)

-- A valid table holds these data, and gets memory from this allocator.
pub record Holds (t : GhtHashTable) (m : Memory) (fn_alloc : Bool → (ℕ → Bool) → ℕ)
    (data_of : GhtHashKey → ℕ) : Type 0 where
  pub valid : IsValid t m
  pub allocator : t.fn_alloc ≡ fn_alloc
  pub gives : (j : GhtHashKey) → (ght_get t m j).0 ≡ data_of j

-- A table whose view is linked and plain holds the view's values.
pub view-Holds :
    (t : GhtHashTable) (m : Memory) (w : View) (h : IsLinked w) (data_of : GhtHashKey → ℕ)
    → view t m ≡ w
    → IsPlain w
    → ((j : GhtHashKey) → value w h j ≡ data_of j)
    → Holds t m w.fn_alloc data_of
view-Holds t m w h data_of e plain values =
    let here : (h' : IsLinked (view t m)) × ((j : GhtHashKey) → value (view t m) h' j ≡ data_of j) =
      subst (λ x. (h' : IsLinked x) × ((j : GhtHashKey) → value x h' j ≡ data_of j)) (sym e)
        (h, values) in
    let valid : IsValid t m = record { linked = here.0; plain = subst IsPlain (sym e) plain } in
    record {
      valid = valid;
      allocator = ap View.fn_alloc e;
      gives = λ j. ap (λ r. r.0) (get-value t m here.0 j valid.plain) ∙ here.1 j;
    }

already-ne : ght_already_in_hash ≢ ght_ok
already-ne e = cc

error-ne : ght_error ≢ ght_ok
error-ne e = cc

module _ (t : GhtHashTable) (m : Memory) (h : IsValid t m) (k : GhtHashKey) where
  pub get-found : (j : GhtHashKey) → (ght_get t m j).0 ≡ value (view t m) h.linked j
  get-found j = ap (λ r. r.0) (get-value t m h.linked j h.plain)

  -- A lookup changes nothing.
  pub get-same : ((ght_get t m k).1 ≡ t) × ((ght_get t m k).2 ≡ m)
  get-same = let e = get-value t m h.linked k h.plain in (ap (λ r. r.1) e, ap (λ r. r.2) e)

  pub missing-get : found (view t m) h.linked k ≡ 0 → (ght_get t m k).0 ≡ 0
  missing-get z = get-found k ∙ rw z refl

  pub found-nonnull : found (view t m) h.linked k ≢ 0 → (ght_get t m k).0 ≢ 0
  found-nonnull z e =
      (All-Mem _ (found (view t m) h.linked k) _ (h.linked.located (bucket_of t k))
          (found-Mem (view t m) h.linked k z)).2
        (sym (get-found k ∙ rw (==_ne _ 0 z) refl) ∙ e)

  module _ (kernel : Kernel) (fn : BucketFree) (d : ℕ) where
    added-Holds :
        (some_data : d ≢ 0)
        → found (view t m) h.linked k ≡ 0
        → (some_memory : allocate t m ≢ 0)
        → let made = (he_create t m d k).1 in
          let added = add_entry fn t made k (allocate t m) in
          Holds added.0 added.1 t.fn_alloc (λ j. if same_key k j then d else (ght_get t m j).0)
    unfolding inserted
    added-Holds some_data z a =
        let made = (he_create t m d k).1 in
        let dead = allocate-IsFree t m h.plain a in
        view-Holds _ _ _ (insert-IsLinked (view t m) h.linked (allocate t m) d k a some_data dead z)
          _
          (add_entry-view fn t made k (allocate t m) h.plain.no_limit
            ∙ ap (λ v. link_view v (bucket_of t k) (allocate t m)) (he_create-view t m d k a))
          (record {
            no_heuristics = h.plain.no_heuristics;
            no_rehash = h.plain.no_rehash;
            no_limit = h.plain.no_limit;
            fresh = h.plain.fresh;
          })
          (λ j.
            value-insert (view t m) h.linked (allocate t m) d k a some_data dead z j
            ∙ ap (λ x. if same_key k j then d else x) (sym (get-found j)))

    -- On a valid table ght_insert returns GHT_ALREADY_IN_HASH when the key finds a datum, else
    -- GHT_ERROR when there is no memory for an entry, else GHT_OK.
    pub insert-code : (ght_insert kernel fn t m d k).0 ≡ (
        if (ght_get t m k).0 == 0
        then if allocate t m == 0 then ght_error else ght_ok
        else ght_already_in_hash)
    insert-code = elim (Bool-cases (found (view t m) h.linked k == 0)) [
      | inr z ↦
          rw
            (
              insert-present t m h.linked k kernel fn d h.plain (ne_of_== _ _ z),
              ==_ne _ 0 (found-nonnull (ne_of_== _ _ z)),
            )
            refl
      | inl z ↦ elim (Bool-cases (allocate t m == 0)) [
        | inl a ↦
            rw
              (
                insert-no_memory t m h.linked k kernel fn d h.plain (eq_of_== _ _ z)
                    (eq_of_== _ _ a),
                missing-get (eq_of_== _ _ z),
                a,
              )
              refl
        | inr a ↦
            rw
              (
                insert-added t m h.linked k kernel fn d h.plain (eq_of_== _ _ z) (ne_of_== _ _ a),
                missing-get (eq_of_== _ _ z),
                a,
              )
              refl
      ]
    ]

    -- When ght_insert on a valid table does not return GHT_OK, the table and the memory are as
    -- before.
    pub insert-refused :
        (ght_insert kernel fn t m d k).0 ≢ ght_ok
        → ((ght_insert kernel fn t m d k).1 ≡ t) × ((ght_insert kernel fn t m d k).2 ≡ m)
    insert-refused failed = elim (Bool-cases (found (view t m) h.linked k == 0)) [
      | inr z ↦
          let e = insert-present t m h.linked k kernel fn d h.plain (ne_of_== _ _ z) in
          (ap (λ r. r.1) e, ap (λ r. r.2) e)
      | inl z ↦ elim (Bool-cases (allocate t m == 0)) [
        | inl a ↦
            let e =
              insert-no_memory t m h.linked k kernel fn d h.plain (eq_of_== _ _ z)
                (eq_of_== _ _ a) in
            (ap (λ r. r.1) e, ap (λ r. r.2) e)
        | inr a ↦
            let e =
              insert-added t m h.linked k kernel fn d h.plain (eq_of_== _ _ z) (ne_of_== _ _ a) in
            absurd (failed (ap (λ r. r.0) e))
      ]
    ]

    -- When ght_insert on a valid table, with a datum that is not NULL, returns GHT_OK, then the
    -- table is valid, the key finds the datum, and every other key finds what it found before.
    pub insert-Holds :
        d ≢ 0
        → (ght_insert kernel fn t m d k).0 ≡ ght_ok
        → Holds
            (ght_insert kernel fn t m d k).1
            (ght_insert kernel fn t m d k).2
            t.fn_alloc
            (λ j. if same_key k j then d else (ght_get t m j).0)
    insert-Holds some_data ok = elim (Bool-cases (found (view t m) h.linked k == 0)) [
      | inr z ↦
          let e = insert-present t m h.linked k kernel fn d h.plain (ne_of_== _ _ z) in
          absurd (already-ne (ap (λ r. r.0) (sym e) ∙ ok))
      | inl z ↦ elim (Bool-cases (allocate t m == 0)) [
        | inl a ↦
            let e =
              insert-no_memory t m h.linked k kernel fn d h.plain (eq_of_== _ _ z)
                (eq_of_== _ _ a) in
            absurd (error-ne (ap (λ r. r.0) (sym e) ∙ ok))
        | inr a ↦
            rw (insert-added t m h.linked k kernel fn d h.plain (eq_of_== _ _ z) (ne_of_== _ _ a))
              (added-Holds some_data (eq_of_== _ _ z) (ne_of_== _ _ a))
      ]
    ]

  removed-Holds :
      (z : found (view t m) h.linked k ≢ 0)
      → let out = take_out t m (bucket_of t k) (found (view t m) h.linked k) in
        Holds out.0 out.1 t.fn_alloc (λ j. if same_key k j then 0 else (ght_get t m j).0)
  unfolding removed
  removed-Holds z =
      let p = found (view t m) h.linked k in
      let mem = found-Mem (view t m) h.linked k z in
      view-Holds _ _ _ (remove-IsLinked (view t m) h.linked p (bucket_of t k) mem) _
        (take_out-view t m (bucket_of t k) p)
        (record {
          no_heuristics = h.plain.no_heuristics;
          no_rehash = h.plain.no_rehash;
          no_limit = h.plain.no_limit;
          fresh = h.plain.fresh;
        })
        (λ j.
          value-remove (view t m) h.linked k z j
          ∙ ap (λ x. if same_key k j then 0 else x) (sym (get-found j)))

  pub self-Holds :
      (data_of : GhtHashKey → ℕ)
      → ((j : GhtHashKey) → (ght_get t m j).0 ≡ data_of j)
      → Holds t m t.fn_alloc data_of
  self-Holds data_of e = record { valid = h; allocator = refl; gives = e }

  -- On a valid table ght_remove returns what ght_get finds; then the table is valid, the key finds
  -- NULL, and every other key finds what it found before.
  pub remove-outcome :
      let r = ght_remove t m k in
      (r.0 ≡ (ght_get t m k).0)
      × Holds r.1 r.2 t.fn_alloc (λ j. if same_key k j then 0 else (ght_get t m j).0)
  remove-outcome = elim (Bool-cases (found (view t m) h.linked k == 0)) [
    | inl z ↦
        let none_there = get-found k ∙ rw z refl in
        rw (remove-missing t m h.linked k (eq_of_== _ _ z)) (
          sym none_there,
          self-Holds _ (λ j. elim (Bool-cases (same_key k j)) [
            | inl s ↦ rw (s, sym (same_key-eq k j s)) none_there
            | inr s ↦ rw s refl
          ]),
        )
    | inr z ↦
        rw (remove-present t m h.linked k (ne_of_== _ _ z))
          (sym (get-found k ∙ rw z refl), removed-Holds (ne_of_== _ _ z))
  ]
