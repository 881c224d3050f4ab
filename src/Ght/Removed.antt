-- ===== src/Ght/Removed.antt =====
-- An entry is unlinked from its bucket and freed (ght_remove of FsdFilter/CommonHashTable.cpp).
use mac_osx_file_system_filt.Base.{
  ℕ, ◌≤◌, ◌≡◌, ◌≢◌, inl, inr, refl, sym, true, Bool-cases, if◌then◌else◌, ◌==◌, ==_refl, ==_ne,
  List, All, length, arith,
}
use mac_osx_file_system_filt.Ght.Chain.{
  Chain, Chain-put_next, IsNotIn, IsDistinct, Mem, delete, Chain-next, Chain-prev, Chain-put,
  Chain-nonzero, next-IsNotIn, prev-IsNotIn, Chain-eq,
}
use mac_osx_file_system_filt.Ght.Unlink.{delete-IsNotIn, length-delete, Chain-unlink}
use mac_osx_file_system_filt.Ght.Find.{
  IsUnique, IsUnique-IsDistinct, IsUnique-delete, All-Mem, All-delete,
}
use mac_osx_file_system_filt.Ght.View.{View, unlink_view, drop_view}
use mac_osx_file_system_filt.Ght.Linked.{
  with_bucket, by_bucket, IsLinked, All-map, All-both, elsewhere-IsNotIn,
}

module _ (v : View) (h : IsLinked v) (p b : ℕ) (mem : Mem p (h.entries b)) where
  unfoldable pub removed : View
  removed = drop_view (unlink_view v b p) p

  abbrev without_entry : ℕ → List ℕ
  without_entry = with_bucket h.entries b (delete p (h.entries b))

  own : v.bucket (v.key p) ≡ b
  own = (All-Mem _ p (h.entries b) (h.located b) mem).1

  distinct : IsDistinct (h.entries b)
  distinct = IsUnique-IsDistinct v.key _ (h.unique b)

  gone : IsNotIn p (delete p (h.entries b))
  gone = delete-IsNotIn p (h.entries b) distinct

  -- The buckets but this one do not have the entry or its neighbours.
  pub next_elsewhere : (c : ℕ) → b ≢ c → IsNotIn (v.p_next p) (h.entries c)
  next_elsewhere c ne =
      All-map _ _ (h.entries c)
        (λ a x e.
          next-IsNotIn _ _ a p 0 _ _ (elsewhere-IsNotIn v h a b c x.1.1 ne) x.0 mem (h.chained b)
            (sym e))
        (All-both _ _ _ (Chain-nonzero _ _ _ _ _ (h.chained c)) (h.located c))

  pub prev_elsewhere : (c : ℕ) → b ≢ c → IsNotIn (v.p_prev p) (h.entries c)
  prev_elsewhere c ne =
      All-map _ _ (h.entries c)
        (λ a x e.
          prev-IsNotIn _ _ a p 0 _ _ (elsewhere-IsNotIn v h a b c x.1.1 ne) (λ z. x.0 (sym z)) mem
            (h.chained b) (sym e))
        (All-both _ _ _ (Chain-nonzero _ _ _ _ _ (h.chained c)) (h.located c))

  head_here : (if v.p_prev p == 0 then v.p_next p else v.pp_entries b) ≡ removed.pp_entries b
  unfolding removed
  head_here = elim (Bool-cases (v.p_prev p == 0)) [
    | inl e ↦ rw (e, ==_refl b) refl
    | inr e ↦ rw e refl
  ]

  head_there : (c : ℕ) → b ≢ c → v.pp_entries c ≡ removed.pp_entries c
  unfolding removed
  head_there c ne = elim (Bool-cases (v.p_prev p == 0)) [
    | inl e ↦ rw (e, ==_ne b c ne) refl
    | inr e ↦ rw e refl
  ]

  -- A bucket but this one keeps its list.
  chained_there :
      (c : ℕ) → b ≢ c → Chain removed.p_next removed.p_prev 0 (v.pp_entries c) (h.entries c)
  unfolding removed
  chained_there c ne =
      let out = elsewhere-IsNotIn v h p c b own (λ e. ne (sym e)) in
      Chain-next _ _ p 0 0 _ _ out (
        Chain-prev _ _ p 0 0 _ _ out (
          Chain-put _ _ (v.p_next p) (v.p_prev p) 0 _ _ (next_elsewhere c ne) (
            Chain-put_next _ _ (v.p_prev p) (v.p_next p) 0 _ _ (prev_elsewhere c ne)
              (h.chained c))))

  chained_new :
      (c : ℕ) → Chain removed.p_next removed.p_prev 0 (removed.pp_entries c) (without_entry c)
  unfolding removed
  chained_new =
      by_bucket h.entries b (delete p (h.entries b))
        (λ c l. Chain removed.p_next removed.p_prev 0 (removed.pp_entries c) l)
        (Chain-next _ _ p 0 0 _ _ gone (
          Chain-prev _ _ p 0 0 _ _ gone (
            Chain-eq _ _ _ _ _ _ _ _ refl refl head_here
              (Chain-unlink v.p_next v.p_prev p (v.pp_entries b) _ distinct mem (h.chained b)))))
        (λ c ne. Chain-eq _ _ _ _ _ _ _ _ refl refl (head_there c ne) (chained_there c ne))

  located_new :
      (c : ℕ)
      → All
          (λ a. (removed.live a ≡ true) × (v.bucket (v.key a) ≡ c) × (v.p_data a ≢ 0))
          (without_entry c)
  unfolding removed
  located_new =
      by_bucket h.entries b (delete p (h.entries b))
        (λ c l. All (λ a. (removed.live a ≡ true) × (v.bucket (v.key a) ≡ c) × (v.p_data a ≢ 0)) l)
        (still_live b (delete p (h.entries b)) gone (All-delete _ p _ (h.located b)))
        (λ c ne.
          still_live c (h.entries c) (elsewhere-IsNotIn v h p c b own (λ e. ne (sym e)))
            (h.located c))
    where
      still_live :
          (c : ℕ) (l : List ℕ)
          → IsNotIn p l
          → All (λ a. (v.live a ≡ true) × (v.bucket (v.key a) ≡ c) × (v.p_data a ≢ 0)) l
          → All (λ a. (removed.live a ≡ true) × (v.bucket (v.key a) ≡ c) × (v.p_data a ≢ 0)) l
      still_live c l n all =
          All-map _ _ l (λ a x. (rw (==_ne p a (λ e. x.0 (sym e))) x.1.0, x.1.1, x.1.2))
            (All-both _ _ l n all)

  pub remove-IsLinked : IsLinked removed
  unfolding removed
  remove-IsLinked = record {
    entries = without_entry;
    chained = chained_new;
    located = located_new;
    unique =
        by_bucket h.entries b (delete p (h.entries b)) (λ c l. IsUnique v.key l)
          (IsUnique-delete v.key p _ (h.unique b)) (λ c ne. h.unique c);
    short =
        by_bucket h.entries b (delete p (h.entries b)) (λ c l. length l ≤ v.allocations)
          (omega (arith, length-delete p (h.entries b), h.short b)) (λ c ne. h.short c);
  }

  pub entries-remove :
      (c : ℕ) → remove-IsLinked.entries c ≡ (if c == b then delete p (h.entries b) else h.entries c)
  unfolding remove-IsLinked
  entries-remove c = refl
