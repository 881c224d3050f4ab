-- ===== src/Ght/Value.antt =====
-- What a well-formed hash table of FsdFilter/CommonHashTable.cpp holds for a key, and how the
-- operations on buckets change it.
use mac_osx_file_system_filt.Base.{
  ℕ, ◌≡◌, ◌≢◌, inl, inr, refl, sym, ap, ◌∙◌, false, Bool-cases, if◌then◌else◌, ◌==◌, ==_refl, ==_ne,
  eq_of_==, ne_of_==, update,
}
use mac_osx_file_system_filt.Ght.{GhtHashKey, same_key}
use mac_osx_file_system_filt.Ght.Chain.{Mem}
use mac_osx_file_system_filt.Ght.Unlink.{IsNotIn-Mem}
use mac_osx_file_system_filt.Ght.Find.{find, find-update, find-Mem, find-delete, same_key-eq}
use mac_osx_file_system_filt.Ght.Inserted.{inserted, insert-IsLinked, entries-insert}
use mac_osx_file_system_filt.Ght.Linked.{IsLinked, free-IsNotIn}
use mac_osx_file_system_filt.Ght.Removed.{removed, remove-IsLinked, entries-remove}
use mac_osx_file_system_filt.Ght.View.{View}

-- The entry with the key, or 0, and its datum.
abbrev pub found : (v : View) → IsLinked v → GhtHashKey → ℕ
found v h k = find v.key (h.entries (v.bucket k)) k

abbrev pub value_of : View → ℕ → ℕ
value_of v p = if p == 0 then 0 else v.p_data p

abbrev pub value : (v : View) → IsLinked v → GhtHashKey → ℕ
value v h k = value_of v (found v h k)

module _ (v : View) (h : IsLinked v) (p d : ℕ) (k : GhtHashKey) (nonzero : p ≢ 0)
    (some_data : d ≢ 0) (dead : v.live p ≡ false) (missing : found v h k ≡ 0) where
  found-insert :
      (j : GhtHashKey)
      → found
          (inserted v h p d k nonzero some_data dead missing)
          (insert-IsLinked v h p d k nonzero some_data dead missing)
          j
        ≡ (if same_key k j then p else found v h j)
  unfolding inserted
  found-insert j =
      let same =
        find-update v.key p k (h.entries (v.bucket j)) j (free-IsNotIn v h p dead (v.bucket j)) in
      ap (λ l. find (update v.key p k) l j)
        (entries-insert v h p d k nonzero some_data dead missing (v.bucket j))
      ∙ elim (Bool-cases (same_key k j)) [
        | inl s ↦
            rw
              (
                sym (same_key-eq k j s),
                ==_refl (v.bucket k),
                ==_refl p,
                ==_refl k.i_size,
                ==_refl k.key_data,
              )
              refl
        | inr s ↦ elim (Bool-cases (v.bucket j == v.bucket k)) [
          | inl e ↦ rw (e, ==_refl p, s) same
          | inr e ↦ rw (e, s) same
        ]
      ]

  other : (j : GhtHashKey) → (found v h j == 0) ≡ false → found v h j ≢ p
  other j z =
      IsNotIn-Mem p (found v h j) _ (free-IsNotIn v h p dead (v.bucket j))
        (find-Mem v.key (h.entries (v.bucket j)) j (ne_of_== _ _ z)).0

  pub value-insert :
      (j : GhtHashKey)
      → value
          (inserted v h p d k nonzero some_data dead missing)
          (insert-IsLinked v h p d k nonzero some_data dead missing)
          j
        ≡ (if same_key k j then d else value v h j)
  unfolding inserted
  value-insert j =
      ap (value_of (inserted v h p d k nonzero some_data dead missing)) (found-insert j)
      ∙ elim (Bool-cases (same_key k j)) [
        | inl s ↦ rw (s, ==_ne p 0 nonzero, ==_refl p) refl
        | inr s ↦ elim (Bool-cases (found v h j == 0)) [
          | inl z ↦ rw (s, z) refl
          | inr z ↦ rw (s, z, ==_ne p (found v h j) (λ e. other j z (sym e))) refl
        ]
      ]

module _ (v : View) (h : IsLinked v) (k : GhtHashKey) (present : found v h k ≢ 0) where
  -- The entry with the key is in the key's bucket.
  pub found-Mem : Mem (found v h k) (h.entries (v.bucket k))
  found-Mem = (find-Mem v.key _ k present).0

  found-remove :
      (j : GhtHashKey)
      → found
          (removed v h (found v h k) (v.bucket k) found-Mem)
          (remove-IsLinked v h (found v h k) (v.bucket k) found-Mem)
          j
        ≡ (if same_key k j then 0 else found v h j)
  unfolding removed
  found-remove j =
      let l = h.entries (v.bucket k) in
      let own : v.key (found v h k) ≡ k = (find-Mem v.key l k present).1 in
      let there = find-delete v.key (found v h k) l j (h.unique (v.bucket k)) found-Mem in
      ap (λ l. find v.key l j)
        (entries-remove v h (found v h k) (v.bucket k) found-Mem (v.bucket j))
      ∙ elim (Bool-cases (v.bucket j == v.bucket k)) [
        | inl e ↦ rw e (
            there
            ∙ (ap (λ x. if same_key x j then 0 else find v.key l j) own
                ∙ ap (λ b. if same_key k j then 0 else find v.key (h.entries b) j)
                    (sym (eq_of_== _ _ e))))
        | inr e ↦ rw e (elim (Bool-cases (same_key k j)) [
          | inl s ↦ absurd (ne_of_== _ _ e (sym (ap v.bucket (same_key-eq k j s))))
          | inr s ↦ rw s refl
        ])
      ]

  pub value-remove :
      (j : GhtHashKey)
      → value
          (removed v h (found v h k) (v.bucket k) found-Mem)
          (remove-IsLinked v h (found v h k) (v.bucket k) found-Mem)
          j
        ≡ (if same_key k j then 0 else value v h j)
  unfolding removed
  value-remove j =
      ap (value_of (removed v h (found v h k) (v.bucket k) found-Mem)) (found-remove j)
      ∙ elim (Bool-cases (same_key k j)) [ inl s ↦ rw s refl | inr s ↦ rw s refl ]
