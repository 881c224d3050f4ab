-- ===== src/Ght/Sequence.antt =====
-- Any sequence of ght_insert, ght_replace and ght_remove of FsdFilter/CommonHashTable.cpp, against
-- its specification: a finite map.
use mac_osx_file_system_filt.Base.{
  ℕ, ◌≡◌, ◌≢◌, inl, inr, refl, ap, ◌∙◌, Bool, true, false, Bool-cases, Bool-clash, if◌then◌else◌,
  ◌==◌, List, [], ◌∷◌, All,
}
use mac_osx_file_system_filt.Hook.HashTable.{GhtStatusCode, ght_ok, ght_already_in_hash, ght_error}
use mac_osx_file_system_filt.Ght.{GhtHashKey, same_key, Memory, GhtHashTable}
use mac_osx_file_system_filt.Ght.Correct.{Holds, insert-Holds, insert-refused, remove-outcome}
use mac_osx_file_system_filt.Ght.Iterate.{ght_insert}
use mac_osx_file_system_filt.Ght.Replace.{replace-outcome}
use mac_osx_file_system_filt.Ght.Table.{Kernel, BucketFree, ght_replace, ght_remove}

-- A call, with the datum and the key.
pub data Call : Type 0 where
  insert_call replace_call : ℕ → GhtHashKey → Call
  remove_call : GhtHashKey → Call

-- No datum is NULL.
abbrev pub HasDatum : Call → Type 0
HasDatum (insert_call d k) = d ≢ 0
HasDatum (replace_call d k) = d ≢ 0
HasDatum (remove_call k) = Unit

abbrev pub store : (GhtHashKey → ℕ) → GhtHashKey → ℕ → GhtHashKey → ℕ
store f k d j = if same_key k j then d else f j

abbrev pub is_ok : GhtStatusCode → Bool
is_ok ght_ok = true
is_ok ght_already_in_hash = false
is_ok ght_error = false

is_ok-ght_ok : (c : GhtStatusCode) → is_ok c ≡ true → c ≡ ght_ok
is_ok-ght_ok ght_ok h = refl
is_ok-ght_ok ght_already_in_hash h = cc
is_ok-ght_ok ght_error h = cc

not_ok : (c : GhtStatusCode) → is_ok c ≡ false → c ≢ ght_ok
not_ok c h e = Bool-clash _ (ap is_ok e) h

module _ (kernel : Kernel) (fn : BucketFree) where
  abbrev pub perform_call : Call → GhtHashTable × Memory → GhtHashTable × Memory
  perform_call (insert_call d k) s = let r = ght_insert kernel fn s.0 s.1 d k in (r.1, r.2)
  perform_call (replace_call d k) s = let r = ght_replace s.0 s.1 d k in (r.1, r.2)
  perform_call (remove_call k) s = let r = ght_remove s.0 s.1 k in (r.1, r.2)

  unfoldable pub perform_calls : List Call → GhtHashTable × Memory → GhtHashTable × Memory
  perform_calls [] s = s
  perform_calls (c ∷ calls) s = perform_calls calls (perform_call c s)

  -- The map after a call; whether an insertion succeeds is read from its code.
  abbrev pub map_after : Call → GhtHashTable × Memory → (GhtHashKey → ℕ) → GhtHashKey → ℕ
  map_after (insert_call d k) s f =
      if is_ok (ght_insert kernel fn s.0 s.1 d k).0 then store f k d else f
  map_after (replace_call d k) s f = if f k == 0 then f else store f k d
  map_after (remove_call k) s f = store f k 0

  unfoldable pub map_after_calls :
      List Call → GhtHashTable × Memory → (GhtHashKey → ℕ) → GhtHashKey → ℕ
  map_after_calls [] s f = f
  map_after_calls (c ∷ calls) s f = map_after_calls calls (perform_call c s) (map_after c s f)

  -- A table that holds a map holds an equal one.
  Holds-eq :
      (s : GhtHashTable × Memory) (alloc alloc' : Bool → (ℕ → Bool) → ℕ) (f g : GhtHashKey → ℕ)
      → alloc ≡ alloc'
      → ((j : GhtHashKey) → f j ≡ g j)
      → Holds s.0 s.1 alloc f
      → Holds s.0 s.1 alloc' g
  Holds-eq s alloc alloc' f g same e h = record {
    valid = h.valid;
    allocator = h.allocator ∙ same;
    gives = λ j. h.gives j ∙ e j;
  }

  perform_call-Holds :
      (c : Call) (s : GhtHashTable × Memory) (alloc : Bool → (ℕ → Bool) → ℕ) (f : GhtHashKey → ℕ)
      → HasDatum c
      → Holds s.0 s.1 alloc f
      → Holds (perform_call c s).0 (perform_call c s).1 alloc (map_after c s f)
  perform_call-Holds (insert_call d k) s alloc f ne h =
      elim (Bool-cases (is_ok (ght_insert kernel fn s.0 s.1 d k).0)) [
        | inl ok ↦ rw ok (
            Holds-eq _ _ _ _ _ h.allocator
              (λ j. ap (λ x. if same_key k j then d else x) (h.gives j))
              (insert-Holds s.0 s.1 h.valid k kernel fn d ne (is_ok-ght_ok _ ok)))
        | inr failed ↦
            let same = insert-refused s.0 s.1 h.valid k kernel fn d (not_ok _ failed) in
            rw (failed, same.0, same.1) h
      ]
  perform_call-Holds (replace_call d k) s alloc f ne h =
      let after = (replace-outcome s.0 s.1 h.valid d k ne).1 in
      elim (Bool-cases (f k == 0)) [
        | inl e ↦ rw e (Holds-eq _ _ _ _ _ h.allocator (λ j. rw (h.gives k, e) (h.gives j)) after)
        | inr e ↦
            rw e (Holds-eq _ _ _ _ _ h.allocator (λ j. rw (h.gives k, e, h.gives j) refl) after)
      ]
  perform_call-Holds (remove_call k) s alloc f ne h =
      Holds-eq _ _ _ _ _ h.allocator (λ j. ap (λ x. if same_key k j then 0 else x) (h.gives j))
        (remove-outcome s.0 s.1 h.valid k).1

  -- From a valid table that holds a map, any sequence of calls with data that are not NULL leads to
  -- a valid table that holds the map after these calls, as the codes of the insertions tell it.
  pub perform_calls-Holds :
      (calls : List Call) (s : GhtHashTable × Memory) (alloc : Bool → (ℕ → Bool) → ℕ)
      (f : GhtHashKey → ℕ)
      → All HasDatum calls
      → Holds s.0 s.1 alloc f
      → Holds (perform_calls calls s).0 (perform_calls calls s).1 alloc (map_after_calls calls s f)
  unfolding perform_calls map_after_calls
  perform_calls-Holds [] s alloc f ne h = h
  perform_calls-Holds (c ∷ calls) s alloc f ne h =
      perform_calls-Holds calls _ alloc _ ne.1 (perform_call-Holds c s alloc f ne.0 h)
