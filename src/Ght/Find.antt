-- ===== src/Ght/Find.antt =====
-- The search of a bucket of FsdFilter/CommonHashTable.cpp, against the search of a list.
use mac_osx_file_system_filt.Base.{
  ℕ, zero, suc, ◌≤◌, ◌≡◌, ◌≢◌, inl, inr, refl, sym, ap, subst, ◌∙◌, true, false, Bool-cases,
  Bool-clash, if◌then◌else◌, ◌==◌, ==_refl, ==_ne, eq_of_==, update, List, [], ◌∷◌, All, length,
  arith,
}
use mac_osx_file_system_filt.Ght.{GhtHashKey, same_key, Memory}
use mac_osx_file_system_filt.Ght.Bucket.{search_loop}
use mac_osx_file_system_filt.Ght.Chain.{Chain, IsNotIn, IsDistinct, Mem, delete}
use mac_osx_file_system_filt.Ght.Unlink.{Mem-ne}

pub same_key-eq : (a b : GhtHashKey) → same_key a b ≡ true → a ≡ b
same_key-eq a b h = elim (Bool-cases (a.i_size == b.i_size)) [
  | inr e ↦ absurd (Bool-clash false (sym (rw e refl) ∙ h) refl)
  | inl e ↦ elim (Bool-cases (a.key_data == b.key_data)) [
    | inr f ↦ absurd (Bool-clash false (sym (rw (e, f) refl) ∙ h) refl)
    | inl f ↦
        ap (λ s. record a { i_size = s }) (eq_of_== _ _ e)
        ∙ ap (λ s. record b { key_data = s }) (eq_of_== _ _ f)
  ]
]

pub same_key_refl : (a : GhtHashKey) → same_key a a ≡ true
same_key_refl a = rw (==_refl a.i_size, ==_refl a.key_data) refl

-- The first entry with the key, or 0.
abbrev pub find : (ℕ → GhtHashKey) → List ℕ → GhtHashKey → ℕ
find key [] k = 0
find key (a ∷ l) k = let rest = find key l k in if same_key (key a) k then a else rest

-- No two entries have the same key.
abbrev pub IsUnique : (ℕ → GhtHashKey) → List ℕ → Type 0
IsUnique key [] = Unit
IsUnique key (a ∷ l) = All (λ b. same_key (key b) (key a) ≡ false) l × IsUnique key l

pub search_loop-find :
    (fuel : ℕ) (m : Memory) (prev p : ℕ) (l : List ℕ) (k : GhtHashKey)
    → length l ≤ fuel
    → Chain m.p_next m.p_prev prev p l
    → search_loop fuel m p k ≡ find m.key l k
unfolding search_loop
search_loop-find zero m prev p [] k h c = refl
search_loop-find (suc fuel) m prev p [] k h c = rw c refl
search_loop-find zero m prev p (a ∷ l) k h c = absurd (omega arith)
search_loop-find (suc fuel) m prev p (a ∷ l) k h c =
    rw (c.0, ==_ne a 0 c.1, search_loop-find fuel m a (m.p_next a) l k (omega arith) c.3) refl

module _ {κ} (P : ℕ → Type κ) where
  pub All-Mem : (p : ℕ) (l : List ℕ) → All P l → Mem p l → P p
  All-Mem p [] all mem = absurd mem
  All-Mem p (a ∷ l) all (inl e) = subst P e all.0
  All-Mem p (a ∷ l) all (inr mem) = All-Mem p l all.1 mem

  pub All-delete : (p : ℕ) (l : List ℕ) → All P l → All P (delete p l)
  All-delete p [] all = tt
  All-delete p (a ∷ l) all = elim (Bool-cases (a == p)) [
    | inl e ↦ rw e all.1
    | inr e ↦ rw e (all.0, All-delete p l all.1)
  ]

pub IsUnique-IsDistinct : (key : ℕ → GhtHashKey) (l : List ℕ) → IsUnique key l → IsDistinct l
IsUnique-IsDistinct key [] u = tt
IsUnique-IsDistinct key (a ∷ l) u = (differ l u.0, IsUnique-IsDistinct key l u.1)
  where
    differ : (l : List ℕ) → All (λ b. same_key (key b) (key a) ≡ false) l → IsNotIn a l
    differ [] all = tt
    differ (b ∷ l) all = ((λ e. Bool-clash _ (rw e (same_key_refl (key a))) all.0), differ l all.1)

pub find-update :
    (key : ℕ → GhtHashKey) (p : ℕ) (k : GhtHashKey) (l : List ℕ) (j : GhtHashKey)
    → IsNotIn p l
    → find (update key p k) l j ≡ find key l j
find-update key p k [] j out = refl
find-update key p k (a ∷ l) j out =
    rw (==_ne p a (λ e. out.0 (sym e)), find-update key p k l j out.1) refl

pub IsUnique-update :
    (key : ℕ → GhtHashKey) (p : ℕ) (k : GhtHashKey) (l : List ℕ)
    → IsNotIn p l
    → IsUnique key l
    → IsUnique (update key p k) l
IsUnique-update key p k [] out u = tt
IsUnique-update key p k (a ∷ l) out u = (differ l out.1 u.0, IsUnique-update key p k l out.1 u.1)
  where
    differ :
        (l : List ℕ)
        → IsNotIn p l
        → All (λ b. same_key (key b) (key a) ≡ false) l
        → All (λ b. same_key (update key p k b) (update key p k a) ≡ false) l
    differ [] out' all = tt
    differ (b ∷ l) out' all = (
      rw (==_ne p a (λ e. out.0 (sym e)), ==_ne p b (λ e. out'.0 (sym e))) all.0,
      differ l out'.1 all.1,
    )

find-here :
    (key : ℕ → GhtHashKey) (a : ℕ) (l : List ℕ) (k : GhtHashKey)
    → same_key (key a) k ≡ true
    → find key (a ∷ l) k ≡ a
find-here key a l k e = rw e refl

find-there :
    (key : ℕ → GhtHashKey) (a : ℕ) (l : List ℕ) (k : GhtHashKey)
    → same_key (key a) k ≡ false
    → find key (a ∷ l) k ≡ find key l k
find-there key a l k e = rw e refl

-- What is found is in the list, with the key; what is not found, is not.
pub find-Mem :
    (key : ℕ → GhtHashKey) (l : List ℕ) (k : GhtHashKey)
    → find key l k ≢ 0
    → Mem (find key l k) l × (key (find key l k) ≡ k)
find-Mem key [] k h = absurd (h refl)
find-Mem key (a ∷ l) k h = elim (Bool-cases (same_key (key a) k)) [
  | inl e ↦
      subst (λ q. Mem q (a ∷ l) × (key q ≡ k)) (sym (find-here key a l k e))
        (inl refl, same_key-eq _ _ e)
  | inr e ↦
      let rest = find-Mem key l k (λ z. h (find-there key a l k e ∙ z)) in
      subst (λ q. Mem q (a ∷ l) × (key q ≡ k)) (sym (find-there key a l k e)) (inr rest.0, rest.1)
]

pub find-missing :
    (key : ℕ → GhtHashKey) (l : List ℕ) (k : GhtHashKey)
    → IsNotIn 0 l
    → find key l k ≡ 0
    → All (λ a. same_key (key a) k ≡ false) l
find-missing key [] k n h = tt
find-missing key (a ∷ l) k n h = elim (Bool-cases (same_key (key a) k)) [
  | inl e ↦ absurd (n.0 (sym (rw e refl) ∙ h))
  | inr e ↦ (e, find-missing key l k n.1 (sym (rw e refl) ∙ h))
]

pub find-none :
    (key : ℕ → GhtHashKey) (l : List ℕ) (k : GhtHashKey)
    → All (λ a. same_key (key a) k ≡ false) l
    → find key l k ≡ 0
find-none key [] k all = refl
find-none key (a ∷ l) k all = rw (all.0, find-none key l k all.1) refl

pub IsUnique-delete :
    (key : ℕ → GhtHashKey) (p : ℕ) (l : List ℕ) → IsUnique key l → IsUnique key (delete p l)
IsUnique-delete key p [] u = tt
IsUnique-delete key p (a ∷ l) u = elim (Bool-cases (a == p)) [
  | inl e ↦ rw e u.1
  | inr e ↦ rw e (All-delete _ p l u.0, IsUnique-delete key p l u.1)
]

-- Of an entry that is deleted, the key is no longer found; another key is found as before.
pub find-delete :
    (key : ℕ → GhtHashKey) (p : ℕ) (l : List ℕ) (j : GhtHashKey)
    → IsUnique key l
    → Mem p l
    → find key (delete p l) j ≡ (if same_key (key p) j then 0 else find key l j)
find-delete key p [] j u mem = absurd mem
find-delete key p (a ∷ l) j u (inl e) = elim (Bool-cases (same_key (key p) j)) [
  | inl s ↦
      rw (s, e, ==_refl p)
        (find-none key l j
          (subst (λ k. All (λ b. same_key (key b) k ≡ false) l) (ap key e ∙ same_key-eq _ _ s) u.0))
  | inr s ↦ rw (s, e, ==_refl p) (rw s refl)
]
find-delete key p (a ∷ l) j u (inr mem) =
    let ne : (a == p) ≡ false =
      ==_ne a p (λ h. Mem-ne p a l (IsUnique-IsDistinct key (a ∷ l) u).0 mem (sym h)) in
    elim (Bool-cases (same_key (key a) j)) [
      | inl s ↦
          let other : same_key (key p) j ≡ false =
            subst (λ k. same_key (key p) k ≡ false) (same_key-eq _ _ s)
              (All-Mem (λ b. same_key (key b) (key a) ≡ false) p l u.0 mem) in
          rw (ne, other, s) refl
      | inr s ↦ rw (ne, s) ((find-delete key p l j u.1 mem))
    ]
