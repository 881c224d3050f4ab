-- ===== src/Ght/Linked.antt =====
-- The well-formed hash tables of FsdFilter/CommonHashTable.cpp: every bucket is a list that is
-- linked both ways, of live entries that belong to it, no two with the same key, and none with NULL as its datum.
use mac_osx_file_system_filt.Base.{
  inl, inr, subst, Bool-cases, if◌then◌else◌, ◌==◌, eq_of_==, ne_of_==, ℕ, ◌≤◌, ◌≡◌, ◌≢◌, sym, ap,
  ◌∙◌, true, false, Bool-clash, List, [], ◌∷◌, All, length,
}
use mac_osx_file_system_filt.Ght.Chain.{Chain, IsNotIn, Chain-nonzero}
use mac_osx_file_system_filt.Ght.Find.{IsUnique}
use mac_osx_file_system_filt.Ght.View.{View}

pub record IsLinked (v : View) : Type 0 where
  pub entries : ℕ → List ℕ
  pub chained : (b : ℕ) → Chain v.p_next v.p_prev 0 (v.pp_entries b) (entries b)
  pub located :
      (b : ℕ)
      → All (λ a. (v.live a ≡ true) × (v.bucket (v.key a) ≡ b) × (v.p_data a ≢ 0)) (entries b)
  pub unique : (b : ℕ) → IsUnique v.key (entries b)
  pub short : (b : ℕ) → length (entries b) ≤ v.allocations

-- Lists by bucket, with that of one bucket replaced; what holds of the new list, and of the others,
-- holds of all.
abbrev pub with_bucket : (ℕ → List ℕ) → ℕ → List ℕ → ℕ → List ℕ
with_bucket entries b l c = if c == b then l else entries c

pub by_bucket {κ} :
    (entries : ℕ → List ℕ) (b : ℕ) (l : List ℕ) (P : ℕ → List ℕ → Type κ)
    → P b l
    → ((c : ℕ) → b ≢ c → P c (entries c))
    → (c : ℕ) → P c (with_bucket entries b l c)
by_bucket entries b l P here there c = elim (Bool-cases (c == b)) [
  | inl e ↦ rw e (subst (λ x. P x l) (sym (eq_of_== _ _ e)) here)
  | inr e ↦ rw e (there c (λ f. ne_of_== _ _ e (sym f)))
]

module _ {κ θ} (P : ℕ → Type κ) (Q : ℕ → Type θ) where
  pub All-map : (l : List ℕ) → ((a : ℕ) → P a → Q a) → All P l → All Q l
  All-map [] f all = tt
  All-map (a ∷ l) f all = (f a all.0, All-map l f all.1)

  pub All-both : (l : List ℕ) → All P l → All Q l → All (λ a. P a × Q a) l
  All-both [] p q = tt
  All-both (a ∷ l) p q = ((p.0, q.0), All-both l p.1 q.1)

module _ (v : View) (h : IsLinked v) where
  -- A free address is in no list, and an entry is in its own bucket's only.
  pub free-IsNotIn : (p : ℕ) → v.live p ≡ false → (b : ℕ) → IsNotIn p (h.entries b)
  free-IsNotIn p dead b =
      All-map _ _ (h.entries b) (λ a x e. Bool-clash _ x.0 (ap v.live e ∙ dead)) (h.located b)

  pub elsewhere-IsNotIn : (p b c : ℕ) → v.bucket (v.key p) ≡ c → b ≢ c → IsNotIn p (h.entries b)
  elsewhere-IsNotIn p b c e ne =
      All-map _ _ (h.entries b) (λ a x f. ne (sym x.1 ∙ (ap (λ q. v.bucket (v.key q)) f ∙ e)))
        (h.located b)

  pub first-IsNotIn : (b c : ℕ) → b ≢ c → IsNotIn (v.pp_entries c) (h.entries b)
  first-IsNotIn b c ne = begins (h.entries c) (h.chained c) (h.located c)
    where
      begins :
          (l : List ℕ)
          → Chain v.p_next v.p_prev 0 (v.pp_entries c) l
          → All (λ a. (v.live a ≡ true) × (v.bucket (v.key a) ≡ c) × (v.p_data a ≢ 0)) l
          → IsNotIn (v.pp_entries c) (h.entries b)
      begins [] chain all = rw chain (Chain-nonzero _ _ _ _ (h.entries b) (h.chained b))
      begins (a ∷ l) chain all = rw chain.0 (elsewhere-IsNotIn a b c all.0.1 ne)
