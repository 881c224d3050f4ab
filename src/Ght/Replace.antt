-- ===== src/Ght/Replace.antt =====
-- ght_replace of FsdFilter/CommonHashTable.cpp.
use mac_osx_file_system_filt.Base.{
  ℕ, ◌≡◌, ◌≢◌, inl, inr, refl, sym, ap, subst, ◌∙◌, false, Bool-cases, Bool-clash, if◌then◌else◌,
  ◌==◌, ==_refl, ==_ne, eq_of_==, ne_of_==, update,
}
use mac_osx_file_system_filt.Ght.{GhtHashKey, same_key, Memory, GhtHashTable}
use mac_osx_file_system_filt.Ght.Correct.{
  IsValid, Holds, view-Holds, missing-get, found-nonnull, get-found, self-Holds,
}
use mac_osx_file_system_filt.Ght.Find.{find-Mem, same_key-eq, same_key_refl}
use mac_osx_file_system_filt.Ght.Linked.{IsLinked, All-map}
use mac_osx_file_system_filt.Ght.Plain.{search-plain}
use mac_osx_file_system_filt.Ght.Table.{ght_get, ght_replace}
use mac_osx_file_system_filt.Ght.Value.{found, value, value_of}
use mac_osx_file_system_filt.Ght.View.{View, view}

abbrev data_view : View → ℕ → ℕ → View
data_view v p d = record v { p_data = update v.p_data p d }

module _ (v : View) (h : IsLinked v) (p d : ℕ) (some_data : d ≢ 0) where
  data-IsLinked : IsLinked (data_view v p d)
  data-IsLinked = record {
    entries = h.entries;
    chained = h.chained;
    located = λ b. All-map _ _ (h.entries b) (λ a x. (x.0, x.1, nonnull a x.2)) (h.located b);
    unique = h.unique;
    short = h.short;
  }
    where
      nonnull : (a : ℕ) → v.p_data a ≢ 0 → update v.p_data p d a ≢ 0
      nonnull a ne = elim (Bool-cases (p == a)) [ inl e ↦ rw e some_data | inr e ↦ rw e ne ]

  entries-data : (b : ℕ) → data-IsLinked.entries b ≡ h.entries b
  unfolding data-IsLinked
  entries-data b = refl

  found-data : (j : GhtHashKey) → found (data_view v p d) data-IsLinked j ≡ found v h j
  unfolding data-IsLinked
  found-data j = refl

module _ (t : GhtHashTable) (m : Memory) (h : IsValid t m) (d : ℕ) (k : GhtHashKey) where
  replaced : Memory
  replaced = record m { p_data = update m.p_data (found (view t m) h.linked k) d }

  replace-missing : found (view t m) h.linked k ≡ 0 → ght_replace t m d k ≡ (0, t, m)
  unfolding ght_replace
  replace-missing z = rw (search-plain t m h.linked k h.plain, z) refl

  replace-present :
      found (view t m) h.linked k ≢ 0
      → ght_replace t m d k ≡ (m.p_data (found (view t m) h.linked k), t, replaced)
  unfolding ght_replace replaced
  replace-present z = rw (search-plain t m h.linked k h.plain, ==_ne _ 0 z) refl

  value-replace :
      (some_data : d ≢ 0)
      → found (view t m) h.linked k ≢ 0
      → let p = found (view t m) h.linked k in
        (j : GhtHashKey)
        → value (data_view (view t m) p d) (data-IsLinked (view t m) h.linked p d some_data) j
          ≡ (if same_key k j then d else (ght_get t m j).0)
  value-replace some_data z j =
      let v = view t m in
      let p = found v h.linked k in
      let own = (find-Mem v.key _ k z).1 in
      ap (value_of (data_view v p d)) (found-data v h.linked p d some_data j)
      ∙ elim (Bool-cases (same_key k j)) [
        | inl s ↦ rw (sym (same_key-eq k j s), same_key_refl k, ==_ne p 0 z, ==_refl p) refl
        | inr s ↦ elim (Bool-cases (found v h.linked j == 0)) [
          | inl y ↦ rw (s, y) (sym (missing-get t m h j (eq_of_== _ _ y)))
          | inr y ↦
              let other : p ≢ found v h.linked j = λ e. Bool-clash _ (same_key_refl k) (
                subst (λ x. same_key k x ≡ false)
                  (sym (find-Mem v.key _ j (ne_of_== _ _ y)).1 ∙ (ap v.key (sym e) ∙ own)) s) in
              rw (s, y, ==_ne p _ other) (sym (get-found t m h j j ∙ rw y refl))
        ]
      ]

  -- On a valid table, with a datum that is not NULL, ght_replace returns what ght_get finds; then
  -- the table is valid, and a key that found a datum finds the new one; every other key, and a key
  -- that found NULL, finds what it found before.
  pub replace-outcome :
      d ≢ 0
      → let r = ght_replace t m d k in
        (r.0 ≡ (ght_get t m k).0)
        × Holds r.1 r.2 t.fn_alloc (λ j.
          if (ght_get t m k).0 == 0
          then (ght_get t m j).0
          else if same_key k j
          then d
          else (ght_get t m j).0)
  unfolding replaced
  replace-outcome some_data = elim (Bool-cases (found (view t m) h.linked k == 0)) [
    | inl z ↦
        let none_there = missing-get t m h k (eq_of_== _ _ z) in
        rw (replace-missing (eq_of_== _ _ z), none_there) (refl, self-Holds t m h k _ (λ j. refl))
    | inr z ↦
        let there = found-nonnull t m h k (ne_of_== _ _ z) in
        rw (replace-present (ne_of_== _ _ z), ==_ne _ 0 there)
          (
            sym (get-found t m h k k ∙ rw z refl),
            view-Holds _ _ _ (data-IsLinked (view t m) h.linked _ d some_data) _ refl
                (record {
                  no_heuristics = h.plain.no_heuristics;
                  no_rehash = h.plain.no_rehash;
                  no_limit = h.plain.no_limit;
                  fresh = h.plain.fresh;
                })
                (value-replace some_data (ne_of_== _ _ z)),
          )
  ]
