-- ===== src/Ght/Front.antt =====
-- move_to_front of FsdFilter/CommonHashTable.cpp: ght_get under GHT_HEURISTICS_MOVE_TO_FRONT.
use mac_osx_file_system_filt.Base.{
  ℕ, suc, ◌≤◌, ◌≡◌, ◌≢◌, inl, inr, refl, sym, ap, subst, ◌∙◌, true, false, Bool-cases, Bool-clash,
  ◌==◌, ==_refl, ==_ne, eq_of_==, update, List, [], ◌∷◌, All, length, arith,
}
use mac_osx_file_system_filt.Ght.{GhtHashKey, same_key}
use mac_osx_file_system_filt.Ght.Chain.{
  Chain, IsNotIn, IsDistinct, Mem, delete, put, put-other, update-same, update-other, Chain-eq,
  Chain-next, Chain-prev, Chain-put, Chain-behind, Chain-nonzero, Chain-put_next, prev-IsNotIn,
}
use mac_osx_file_system_filt.Ght.Unlink.{Mem-ne, Chain-unlink, delete-IsNotIn}
use mac_osx_file_system_filt.Ght.Find.{
  find, IsUnique, IsUnique-IsDistinct, IsUnique-delete, All-Mem, All-delete, find-delete,
  same_key_refl, same_key-eq,
}
use mac_osx_file_system_filt.Ght.Linked.{
  with_bucket, by_bucket, IsLinked, elsewhere-IsNotIn, first-IsNotIn,
}
use mac_osx_file_system_filt.Ght.Removed.{next_elsewhere, prev_elsewhere}
use mac_osx_file_system_filt.Ght.Value.{found}
use mac_osx_file_system_filt.Ght.View.{View}

same_key_comm : (a b : GhtHashKey) → same_key a b ≡ false → same_key b a ≡ false
same_key_comm a b h = elim (Bool-cases (same_key b a)) [
  | inl e ↦ absurd (
      Bool-clash _ (subst (λ x. same_key a x ≡ true) (sym (same_key-eq b a e)) (same_key_refl a)) h)
  | inr e ↦ e
]

-- The list with one of its entries first.
delete-differ :
    (key : ℕ → GhtHashKey) (p : ℕ) (l : List ℕ)
    → IsUnique key l
    → Mem p l
    → All (λ b. same_key (key b) (key p) ≡ false) (delete p l)
delete-differ key p [] u mem = absurd mem
delete-differ key p (a ∷ l) u (inl e) =
    rw (e, ==_refl p) (subst (λ x. All (λ b. same_key (key b) (key x) ≡ false) l) e u.0)
delete-differ key p (a ∷ l) u (inr mem) =
    let ne = Mem-ne p a l (IsUnique-IsDistinct key (a ∷ l) u).0 mem in
    rw (==_ne a p (λ e. ne (sym e))) (
      same_key_comm (key p) (key a) (All-Mem (λ b. same_key (key b) (key a) ≡ false) p l u.0 mem),
      delete-differ key p l u.1 mem,
    )

find-own :
    (key : ℕ → GhtHashKey) (p : ℕ) (l : List ℕ) → IsUnique key l → Mem p l → find key l (key p) ≡ p
find-own key p [] u mem = absurd mem
find-own key p (a ∷ l) u (inl e) = rw (e, same_key_refl (key p)) refl
find-own key p (a ∷ l) u (inr mem) =
    rw (same_key_comm (key p) (key a) (All-Mem (λ b. same_key (key b) (key a) ≡ false) p l u.0 mem))
      (find-own key p l u.1 mem)

find-front :
    (key : ℕ → GhtHashKey) (p : ℕ) (l : List ℕ) (j : GhtHashKey)
    → IsUnique key l
    → Mem p l
    → find key (p ∷ delete p l) j ≡ find key l j
find-front key p l j u mem = elim (Bool-cases (same_key (key p) j)) [
  | inl s ↦ rw s (sym (ap (find key l) (sym (same_key-eq _ _ s)) ∙ find-own key p l u mem))
  | inr s ↦ rw s (find-delete key p l j u mem ∙ rw s refl)
]

length-front : (p : ℕ) (l : List ℕ) → Mem p l → suc (length (delete p l)) ≤ length l
length-front p [] mem = absurd mem
length-front p (a ∷ l) (inl e) = rw (e, ==_refl p) (omega arith)
length-front p (a ∷ l) (inr mem) = elim (Bool-cases (a == p)) [
  | inl e ↦ rw e (omega arith)
  | inr e ↦ rw e (omega (arith, length-front p l mem))
]

-- An entry that is not the first of its bucket has another before it.
prev-nonzero :
    (nx pv : ℕ → ℕ) (p q : ℕ) (l : List ℕ) → Chain nx pv 0 q l → Mem p l → p ≢ q → pv p ≢ 0
prev-nonzero nx pv p q [] c mem ne = absurd mem
prev-nonzero nx pv p q (a ∷ l) c (inl e) ne = absurd (ne (sym (c.0 ∙ e)))
prev-nonzero nx pv p q (a ∷ l) c (inr mem) ne =
    prev-IsNotIn nx pv 0 p a (nx a) l (Chain-nonzero nx pv a (nx a) l c.3) c.1 mem c.3

module _ (v : View) (h : IsLinked v) (p b : ℕ) (mem : Mem p (h.entries b))
    (later : p ≢ v.pp_entries b) where
  unfoldable pub fronted : View
  fronted = record v {
    pp_entries = update v.pp_entries b p;
    p_next = update (put v.p_next (v.p_prev p) (v.p_next p)) p (v.pp_entries b);
    p_prev = put (update (put v.p_prev (v.p_next p) (v.p_prev p)) p 0) (v.pp_entries b) p;
  }

  first : ℕ
  first = v.pp_entries b

  pub behind : v.p_prev p ≢ 0
  behind = prev-nonzero v.p_next v.p_prev p (v.pp_entries b) (h.entries b) (h.chained b) mem later

  pub nonempty : v.pp_entries b ≢ 0
  nonempty = begins (h.entries b) (h.chained b) mem
    where
      begins :
          (l : List ℕ) → Chain v.p_next v.p_prev 0 (v.pp_entries b) l → Mem p l → v.pp_entries b ≢ 0
      begins [] c mem' = absurd mem'
      begins (a ∷ l) c mem' = λ z. c.1 (sym c.0 ∙ z)

  own : v.bucket (v.key p) ≡ b
  own = (All-Mem _ p (h.entries b) (h.located b) mem).1

  nonzero : p ≢ 0
  nonzero = All-Mem (λ a. a ≢ 0) p (h.entries b) (Chain-nonzero _ _ _ _ _ (h.chained b)) mem

  distinct : IsDistinct (h.entries b)
  distinct = IsUnique-IsDistinct v.key _ (h.unique b)

  gone : IsNotIn p (delete p (h.entries b))
  gone = delete-IsNotIn p (h.entries b) distinct

  abbrev fronted_entries : ℕ → List ℕ
  fronted_entries = with_bucket h.entries b (p ∷ delete p (h.entries b))

  -- The rest of the bucket, once the entry is unlinked.
  rest :
      Chain
        (put v.p_next (v.p_prev p) (v.p_next p))
        (put v.p_prev (v.p_next p) (v.p_prev p))
        0
        (v.pp_entries b)
        (delete p (h.entries b))
  rest =
      Chain-eq _ _ _ _ _ _ _ _ refl refl (rw (==_ne _ 0 behind) refl)
        (Chain-unlink v.p_next v.p_prev p (v.pp_entries b) _ distinct mem (h.chained b))

  chained_here : Chain fronted.p_next fronted.p_prev 0 p (p ∷ delete p (h.entries b))
  unfolding fronted
  chained_here =
      let nx = put v.p_next (v.p_prev p) (v.p_next p) in
      let pv = put v.p_prev (v.p_next p) (v.p_prev p) in
      let l = delete p (h.entries b) in
      let q = v.pp_entries b in
      let moved : Chain (update nx p q) (put (update pv p 0) q p) p q l =
        Chain-behind (update nx p q) (update pv p 0) p 0 q l
          (IsUnique-IsDistinct v.key _ (IsUnique-delete v.key p _ (h.unique b)))
          (Chain-prev (update nx p q) pv p 0 0 q l gone (Chain-next nx pv p q 0 q l gone rest)) in
      (
        refl,
        nonzero,
        put-other (update pv p 0) q p p (λ e. later (sym e)) ∙ update-same pv p 0,
        Chain-eq _ _ _ _ _ _ _ _ refl refl (sym (update-same nx p q)) moved,
      )

  chained_there :
      (c : ℕ) → b ≢ c → Chain fronted.p_next fronted.p_prev 0 (v.pp_entries c) (h.entries c)
  unfolding fronted
  chained_there c ne =
      let out = elsewhere-IsNotIn v h p c b own (λ e. ne (sym e)) in
      Chain-put _ _ (v.pp_entries b) p 0 _ _ (first-IsNotIn v h c b (λ e. ne (sym e))) (
        Chain-prev _ _ p 0 0 _ _ out (
          Chain-next _ _ p (v.pp_entries b) 0 _ _ out (
            Chain-put _ _ (v.p_next p) (v.p_prev p) 0 _ _ (next_elsewhere v h p b mem c ne) (
              Chain-put_next _ _ (v.p_prev p) (v.p_next p) 0 _ _ (prev_elsewhere v h p b mem c ne)
                (h.chained c)))))

  chained_all :
      (c : ℕ) → Chain fronted.p_next fronted.p_prev 0 (fronted.pp_entries c) (fronted_entries c)
  unfolding fronted
  chained_all =
      by_bucket h.entries b (p ∷ delete p (h.entries b))
        (λ c l. Chain fronted.p_next fronted.p_prev 0 (fronted.pp_entries c) l)
        (Chain-eq _ _ _ _ _ _ _ (p ∷ delete p (h.entries b)) refl refl
          (sym (update-same v.pp_entries b p)) chained_here)
        (λ c ne.
          Chain-eq _ _ _ _ _ _ _ _ refl refl (sym (update-other v.pp_entries b p c ne))
            (chained_there c ne))

  pub front-IsLinked : IsLinked fronted
  unfolding fronted
  front-IsLinked = record {
    entries = fronted_entries;
    chained = chained_all;
    located =
        by_bucket h.entries b (p ∷ delete p (h.entries b))
          (λ c l. All (λ a. (v.live a ≡ true) × (v.bucket (v.key a) ≡ c) × (v.p_data a ≢ 0)) l)
          (
            All-Mem (λ a. (v.live a ≡ true) × (v.bucket (v.key a) ≡ b) × (v.p_data a ≢ 0)) p _
                (h.located b) mem,
            All-delete _ p _ (h.located b),
          )
          (λ c ne. h.located c);
    unique =
        by_bucket h.entries b (p ∷ delete p (h.entries b)) (λ c l. IsUnique v.key l)
          (delete-differ v.key p _ (h.unique b) mem, IsUnique-delete v.key p _ (h.unique b))
          (λ c ne. h.unique c);
    short =
        by_bucket h.entries b (p ∷ delete p (h.entries b)) (λ c l. length l ≤ v.allocations)
          (omega (arith, length-front p (h.entries b) mem, h.short b)) (λ c ne. h.short c);
  }

  -- Every key finds what it found before.
  pub found-front : (j : GhtHashKey) → found fronted front-IsLinked j ≡ found v h j
  unfolding fronted front-IsLinked
  found-front j = elim (Bool-cases (v.bucket j == b)) [
    | inl e ↦ rw e (
        find-front v.key p (h.entries b) j (h.unique b) mem
        ∙ ap (λ c. find v.key (h.entries c) j) (sym (eq_of_== _ _ e)))
    | inr e ↦ rw e refl
  ]
