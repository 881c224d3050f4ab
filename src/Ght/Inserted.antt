-- ===== src/Ght/Inserted.antt =====
-- An entry is made and linked into its bucket (ght_insert of FsdFilter/CommonHashTable.cpp).
use mac_osx_file_system_filt.Base.{
  ℕ, ◌+◌, ◌≤◌, ◌≡◌, ◌≢◌, inl, inr, refl, sym, ap, ◌∙◌, true, false, Bool-cases, if◌then◌else◌, ◌==◌,
  ==_refl, ==_ne, eq_of_==, update, List, ◌∷◌, All, length, arith,
}
use mac_osx_file_system_filt.Ght.{GhtHashKey, same_key}
use mac_osx_file_system_filt.Ght.Chain.{
  Chain, IsNotIn, Chain-next, Chain-prev, Chain-put, Chain-behind, Chain-nonzero, put-other,
  update-same, Chain-eq, Chain-first,
}
use mac_osx_file_system_filt.Ght.Find.{
  find, IsUnique, IsUnique-IsDistinct, IsUnique-update, find-missing,
}
use mac_osx_file_system_filt.Ght.View.{View, create_view, link_view}
use mac_osx_file_system_filt.Ght.Linked.{
  with_bucket, by_bucket, IsLinked, All-map, All-both, free-IsNotIn, first-IsNotIn,
}

module _ (v : View) (h : IsLinked v) (p d : ℕ) (k : GhtHashKey) (nonzero : p ≢ 0)
    (some_data : d ≢ 0) (dead : v.live p ≡ false)
    (missing : find v.key (h.entries (v.bucket k)) k ≡ 0) where
  unfoldable pub inserted : View
  inserted = link_view (create_view v p d k) (v.bucket k) p

  out : (b : ℕ) → IsNotIn p (h.entries b)
  out = free-IsNotIn v h p dead

  located_old :
      (b : ℕ)
      → All
          (λ a.
            (inserted.live a ≡ true) × (v.bucket (inserted.key a) ≡ b) × (inserted.p_data a ≢ 0))
          (h.entries b)
  unfolding inserted
  located_old b =
      All-map _ _ (h.entries b)
        (λ a x. (
          rw (==_ne p a (λ e. x.0 (sym e))) x.1.0,
          rw (==_ne p a (λ e. x.0 (sym e))) x.1.1,
          rw (==_ne p a (λ e. x.0 (sym e))) x.1.2,
        ))
        (All-both _ _ (h.entries b) (out b) (h.located b))

  abbrev with_entry : ℕ → List ℕ
  with_entry = with_bucket h.entries (v.bucket k) (p ∷ h.entries (v.bucket k))

  first : ℕ
  first = v.pp_entries (v.bucket k)

  first-ne : first ≢ p
  unfolding first
  first-ne = Chain-first v.p_next v.p_prev p 0 _ _ nonzero (out _) (h.chained (v.bucket k))

  framed :
      (b : ℕ)
      → Chain inserted.p_next (update (update v.p_prev p 0) p 0) 0 (v.pp_entries b) (h.entries b)
  unfolding inserted
  framed b = Chain-prev _ _ p 0 0 _ _ (out b) (
      Chain-prev _ _ p 0 0 _ _ (out b)
        (Chain-next _ _ p _ 0 _ _ (out b) (Chain-next _ _ p 0 0 _ _ (out b) (h.chained b))))

  chained_new :
      (b : ℕ) → Chain inserted.p_next inserted.p_prev 0 (inserted.pp_entries b) (with_entry b)
  unfolding inserted first
  chained_new =
      by_bucket h.entries (v.bucket k) (p ∷ h.entries (v.bucket k))
        (λ b l. Chain inserted.p_next inserted.p_prev 0 (inserted.pp_entries b) l)
        (
          rw (==_refl (v.bucket k)) refl,
          nonzero,
          put-other _ first p p first-ne ∙ update-same (update v.p_prev p 0) p 0,
          Chain-eq _ _ _ _ _ _ _ _ refl refl (sym (update-same (update v.p_next p 0) p first)) (
              Chain-behind _ _ p 0 first _ (IsUnique-IsDistinct v.key _ (h.unique (v.bucket k)))
                (framed (v.bucket k))),
        )
        (λ b ne. rw (==_ne _ _ ne) (
          Chain-put _ _ first p 0 (v.pp_entries b) _
            (first-IsNotIn v h b (v.bucket k) (λ e. ne (sym e))) (framed b)))

  located_new :
      (b : ℕ)
      → All
          (λ a.
            (inserted.live a ≡ true) × (v.bucket (inserted.key a) ≡ b) × (inserted.p_data a ≢ 0))
          (with_entry b)
  unfolding inserted
  located_new =
      by_bucket h.entries (v.bucket k) (p ∷ h.entries (v.bucket k))
        (λ b l.
          All
            (λ a.
              (inserted.live a ≡ true) × (v.bucket (inserted.key a) ≡ b) × (inserted.p_data a ≢ 0))
            l)
        (
          (
            update-same v.live p true,
            ap v.bucket (update-same v.key p k),
            λ z. some_data (sym (update-same v.p_data p d) ∙ z),
          ),
          located_old (v.bucket k),
        )
        (λ b ne. located_old b)

  different : All (λ b. same_key (inserted.key b) (inserted.key p) ≡ false) (h.entries (v.bucket k))
  unfolding inserted
  different =
      All-map _ _ (h.entries (v.bucket k)) (λ a x. rw (==_ne p a (λ e. x.0 (sym e)), ==_refl p) x.1)
        (All-both _ _ _ (out (v.bucket k))
          (find-missing v.key _ k (Chain-nonzero _ _ _ _ _ (h.chained (v.bucket k))) missing))

  IsUnique-with_entry : (b : ℕ) → IsUnique inserted.key (with_entry b)
  unfolding inserted
  IsUnique-with_entry =
      by_bucket h.entries (v.bucket k) (p ∷ h.entries (v.bucket k)) (λ b l. IsUnique inserted.key l)
        (different, IsUnique-update v.key p k _ (out _) (h.unique _))
        (λ b ne. IsUnique-update v.key p k _ (out b) (h.unique b))

  short_new : (b : ℕ) → length (with_entry b) ≤ inserted.allocations
  unfolding inserted
  short_new =
      by_bucket h.entries (v.bucket k) (p ∷ h.entries (v.bucket k))
        (λ b l. length l ≤ v.allocations + 1) (omega (arith, h.short (v.bucket k)))
        (λ b ne. omega (arith, h.short b))

  pub insert-IsLinked : IsLinked inserted
  unfolding inserted
  insert-IsLinked = record {
    entries = with_entry;
    chained = chained_new;
    located = located_new;
    unique = IsUnique-with_entry;
    short = short_new;
  }

  pub entries-insert :
      (b : ℕ)
      → insert-IsLinked.entries b ≡ (if b == v.bucket k then p ∷ h.entries b else h.entries b)
  unfolding insert-IsLinked
  entries-insert b = elim (Bool-cases (b == v.bucket k)) [
    | inl e ↦ rw (e, eq_of_== _ _ e) refl
    | inr e ↦ rw e refl
  ]
