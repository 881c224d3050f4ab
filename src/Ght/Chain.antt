-- ===== src/Ght/Chain.antt =====
-- Lists that are linked both ways, as the buckets of FsdFilter/CommonHashTable.cpp are.
use mac_osx_file_system_filt.Base.{
  ℕ, ◌≡◌, ◌≢◌, ◌⊎◌, inl, inr, refl, sym, ap, subst, ◌∙◌, Bool-cases, if◌then◌else◌, ◌==◌, ==_refl,
  ==_ne, eq_of_==, ne_of_==, update, List, [], ◌∷◌, All,
}

-- The list begins at p, behind prev.
abbrev pub Chain : (ℕ → ℕ) → (ℕ → ℕ) → ℕ → ℕ → List ℕ → Type 0
Chain nx pv prev p [] = p ≡ 0
Chain nx pv prev p (a ∷ l) = (p ≡ a) × (a ≢ 0) × (pv a ≡ prev) × Chain nx pv a (nx a) l

-- p is not in the list.
abbrev pub IsNotIn : ℕ → List ℕ → Type 0
IsNotIn p = All (λ a. a ≢ p)

abbrev pub IsDistinct : List ℕ → Type 0
IsDistinct [] = Unit
IsDistinct (a ∷ l) = IsNotIn a l × IsDistinct l

abbrev pub Mem : ℕ → List ℕ → Type 0
Mem p [] = ⊥
Mem p (a ∷ l) = (a ≡ p) ⊎ Mem p l

abbrev pub delete : ℕ → List ℕ → List ℕ
delete p [] = []
delete p (a ∷ l) = let rest = delete p l in if a == p then l else a ∷ rest

pub update-other {ℓ} :
    {A : Type ℓ} (f : ℕ → A) (p : ℕ) (v : A) (q : ℕ) → p ≢ q → update f p v q ≡ f q
update-other f p v q ne = rw (==_ne p q ne)

pub update-same {ℓ} : {A : Type ℓ} (f : ℕ → A) (p : ℕ) (v : A) → update f p v p ≡ v
update-same f p v = rw (==_refl p)

pub Chain-eq :
    (nx nx' pv pv' : ℕ → ℕ) (prev p p' : ℕ) (l : List ℕ)
    → nx ≡ nx'
    → pv ≡ pv'
    → p ≡ p'
    → Chain nx pv prev p l
    → Chain nx' pv' prev p' l
Chain-eq nx nx' pv pv' prev p p' l e f g c =
    subst (λ n. Chain n pv' prev p' l) e
      (subst (λ v. Chain nx v prev p' l) f (subst (λ q. Chain nx pv prev q l) g c))

-- A write to entries outside the list leaves it.
pub Chain-next :
    (nx pv : ℕ → ℕ) (q v prev p : ℕ) (l : List ℕ)
    → IsNotIn q l
    → Chain nx pv prev p l
    → Chain (update nx q v) pv prev p l
Chain-next nx pv q v prev p [] out c = c
Chain-next nx pv q v prev p (a ∷ l) out c =
    (c.0, c.1, c.2, rw (==_ne q a (λ e. out.0 (sym e))) (Chain-next nx pv q v a (nx a) l out.1 c.3))

pub Chain-prev :
    (nx pv : ℕ → ℕ) (q v prev p : ℕ) (l : List ℕ)
    → IsNotIn q l
    → Chain nx pv prev p l
    → Chain nx (update pv q v) prev p l
Chain-prev nx pv q v prev p [] out c = c
Chain-prev nx pv q v prev p (a ∷ l) out c =
    (c.0, c.1, rw (==_ne q a (λ e. out.0 (sym e))) c.2, Chain-prev nx pv q v a (nx a) l out.1 c.3)

-- A member is written, unless p is NULL.
unfoldable pub put : (ℕ → ℕ) → ℕ → ℕ → ℕ → ℕ
put f p v = if p == 0 then f else update f p v

pub put-zero : (f : ℕ → ℕ) (v : ℕ) → put f 0 v ≡ f
unfolding put
put-zero f v = refl

pub put-update : (f : ℕ → ℕ) (p v : ℕ) → p ≢ 0 → put f p v ≡ update f p v
unfolding put
put-update f p v ne = rw (==_ne p 0 ne) refl

pub put-same : (f : ℕ → ℕ) (p v : ℕ) → p ≢ 0 → put f p v p ≡ v
put-same f p v ne = rw (put-update f p v ne) (update-same f p v)

pub put-other : (f : ℕ → ℕ) (p v q : ℕ) → p ≢ q → put f p v q ≡ f q
unfolding put
put-other f p v q ne = elim (Bool-cases (p == 0)) [
  | inl e ↦ rw e refl
  | inr e ↦ rw (e, ==_ne p q ne) refl
]

-- A list that is put behind another entry.
pub Chain-behind :
    (nx pv : ℕ → ℕ) (v prev p : ℕ) (l : List ℕ)
    → IsDistinct l
    → Chain nx pv prev p l
    → Chain nx (put pv p v) v p l
Chain-behind nx pv v prev p [] d c = c
Chain-behind nx pv v prev p (a ∷ l) d c = (
  c.0,
  c.1,
  ap (λ x. put pv x v a) c.0 ∙ put-same pv a v c.1,
  Chain-eq _ _ _ _ _ _ _ l refl (sym (put-update pv a v c.1) ∙ ap (λ x. put pv x v) (sym c.0)) refl
      (Chain-prev nx pv a v a (nx a) l d.0 c.3),
)

pub Chain-put :
    (nx pv : ℕ → ℕ) (q v prev p : ℕ) (l : List ℕ)
    → IsNotIn q l
    → Chain nx pv prev p l
    → Chain nx (put pv q v) prev p l
Chain-put nx pv q v prev p l out c = elim (Bool-cases (q == 0)) [
  | inl e ↦ rw (eq_of_== q 0 e, put-zero pv v) c
  | inr e ↦ rw (put-update pv q v (ne_of_== q 0 e)) (Chain-prev nx pv q v prev p l out c)
]

pub Chain-put_next :
    (nx pv : ℕ → ℕ) (q v prev p : ℕ) (l : List ℕ)
    → IsNotIn q l
    → Chain nx pv prev p l
    → Chain (put nx q v) pv prev p l
Chain-put_next nx pv q v prev p l out c = elim (Bool-cases (q == 0)) [
  | inl e ↦ rw (eq_of_== q 0 e, put-zero nx v) c
  | inr e ↦ rw (put-update nx q v (ne_of_== q 0 e)) (Chain-next nx pv q v prev p l out c)
]

pub Chain-nonzero : (nx pv : ℕ → ℕ) (prev p : ℕ) (l : List ℕ) → Chain nx pv prev p l → IsNotIn 0 l
Chain-nonzero nx pv prev p [] c = tt
Chain-nonzero nx pv prev p (a ∷ l) c = (c.1, Chain-nonzero nx pv a (nx a) l c.3)

pub Chain-first :
    (nx pv : ℕ → ℕ) (x prev p : ℕ) (l : List ℕ) → x ≢ 0 → IsNotIn x l → Chain nx pv prev p l → p ≢ x
Chain-first nx pv x prev p [] z out c = λ e. z (sym e ∙ c)
Chain-first nx pv x prev p (a ∷ l) z out c = λ e. out.0 (sym c.0 ∙ e)

-- Where the neighbours of an entry are.
pub next-IsNotIn :
    (nx pv : ℕ → ℕ) (x q prev p : ℕ) (l : List ℕ)
    → IsNotIn x l
    → x ≢ 0
    → Mem q l
    → Chain nx pv prev p l
    → nx q ≢ x
next-IsNotIn nx pv x q prev p [] out z mem c = absurd mem
next-IsNotIn nx pv x q prev p (a ∷ l) out z (inr mem) c =
    next-IsNotIn nx pv x q a (nx a) l out.1 z mem c.3
next-IsNotIn nx pv x q prev p (a ∷ []) out z (inl e) c = λ h. z (sym h ∙ ap nx (sym e) ∙ c.3)
next-IsNotIn nx pv x q prev p (a ∷ b ∷ l) out z (inl e) c = λ h. out.1.0 (sym c.3.0 ∙ ap nx e ∙ h)

pub prev-IsNotIn :
    (nx pv : ℕ → ℕ) (x q prev p : ℕ) (l : List ℕ)
    → IsNotIn x l
    → prev ≢ x
    → Mem q l
    → Chain nx pv prev p l
    → pv q ≢ x
prev-IsNotIn nx pv x q prev p [] out ne mem c = absurd mem
prev-IsNotIn nx pv x q prev p (a ∷ l) out ne (inl e) c = λ h. ne (sym c.2 ∙ ap pv e ∙ h)
prev-IsNotIn nx pv x q prev p (a ∷ l) out ne (inr mem) c =
    prev-IsNotIn nx pv x q a (nx a) l out.1 out.0 mem c.3
