-- ===== src/Ght/Unlink.antt =====
-- An entry is unlinked from a list that is linked both ways (remove_from_chain of
-- FsdFilter/CommonHashTable.cpp).
use mac_osx_file_system_filt.Base.{
  ℕ, ◌≡◌, ◌≢◌, inl, inr, refl, sym, ap, subst, ◌∙◌, Bool-cases, if◌then◌else◌, ◌==◌, ==_refl, ==_ne,
  eq_of_==, ne_of_==, update, List, [], ◌∷◌, length, ◌≤◌, arith,
}
use mac_osx_file_system_filt.Ght.Chain.{
  Chain, IsNotIn, IsDistinct, Mem, delete, update-other, Chain-eq, Chain-next, put-zero, put-update,
  put-other, Chain-behind, Chain-nonzero, next-IsNotIn, prev-IsNotIn, put,
}

-- What is in the rest of a list is not its first entry, and is not NULL.
pub Mem-ne : (q a : ℕ) (l : List ℕ) → IsNotIn a l → Mem q l → q ≢ a
Mem-ne q a [] out mem = absurd mem
Mem-ne q a (b ∷ l) out (inl e) = λ h. out.0 (e ∙ h)
Mem-ne q a (b ∷ l) out (inr mem) = Mem-ne q a l out.1 mem

pub delete-first : (q : ℕ) (l : List ℕ) → delete q (q ∷ l) ≡ l
delete-first q l = rw (==_refl q) refl

pub delete-rest : (q a : ℕ) (l : List ℕ) → a ≢ q → delete q (a ∷ l) ≡ (a ∷ delete q l)
delete-rest q a l ne = rw (==_ne a q ne) refl

-- An entry that is not the first is unlinked: its neighbours are linked.
Chain-unlink_rest :
    (nx pv : ℕ → ℕ) (q prev p a : ℕ) (l : List ℕ)
    → IsDistinct (a ∷ l)
    → Mem q l
    → Chain nx pv prev p (a ∷ l)
    → Chain (update nx (pv q) (nx q)) (put pv (nx q) (pv q)) prev p (a ∷ delete q l)
Chain-unlink_rest nx pv q prev p a [] d mem c = absurd mem
Chain-unlink_rest nx pv q prev p a (b ∷ l) d (inl e) c =
    let pq = ap pv (sym e) ∙ c.3.2 in
    let back =
      put-other pv (nx q) (pv q) a
        (λ h. next-IsNotIn nx pv a q a (nx a) (b ∷ l) d.0 c.1 (inl e) c.3 h) in
    (
      c.0,
      c.1,
      back ∙ c.2,
      rw (e, ==_refl q)
          (Chain-eq _ _ _ _ _ _ _ l (ap (λ x. update nx x (nx q)) (sym pq))
            (ap (λ x. put pv (nx q) x) (sym pq)) (ap nx e ∙ sym (rw (pq, ==_refl a) refl))
            (Chain-next nx (put pv (nx q) a) a (nx q) a (nx b) l d.0.1 (
              subst (λ x. Chain nx (put pv (nx x) a) a (nx b) l) e
                (Chain-behind nx pv a b (nx b) l d.1.1 c.3.3)))),
    )
Chain-unlink_rest nx pv q prev p a (b ∷ l) d (inr mem) c =
    let back =
      put-other pv (nx q) (pv q) a
        (λ h. next-IsNotIn nx pv a q a (nx a) (b ∷ l) d.0 c.1 (inr mem) c.3 h) in
    let kept =
      update-other nx (pv q) (nx q) a (prev-IsNotIn nx pv a q b (nx b) l d.0.1 d.0.0 mem c.3.3) in
    (
      c.0,
      c.1,
      back ∙ c.2,
      rw (kept, delete-rest q b l (λ h. Mem-ne q b l d.1.0 mem (sym h)))
          (Chain-unlink_rest nx pv q a (nx a) b l d.1 mem c.3),
    )

-- An entry of a list that begins at p is unlinked.
pub Chain-unlink :
    (nx pv : ℕ → ℕ) (q p : ℕ) (l : List ℕ)
    → IsDistinct l
    → Mem q l
    → Chain nx pv 0 p l
    → Chain
        (put nx (pv q) (nx q))
        (put pv (nx q) (pv q))
        0
        (if pv q == 0 then nx q else p)
        (delete q l)
Chain-unlink nx pv q p [] d mem c = absurd mem
Chain-unlink nx pv q p (a ∷ l) d (inl e) c =
    let pq : pv q ≡ 0 = ap pv (sym e) ∙ c.2 in
    rw (e, ==_refl q)
      (Chain-eq _ _ _ _ _ _ _ l (sym (put-zero nx (nx q)) ∙ sym (ap (λ x. put nx x (nx q)) pq))
        (ap (λ x. put pv (nx q) x) (sym pq)) (ap nx e ∙ sym (rw pq refl))
        (subst (λ x. Chain nx (put pv (nx x) 0) 0 (nx a) l) e
          (Chain-behind nx pv 0 a (nx a) l d.1 c.3)))
Chain-unlink nx pv q p (a ∷ l) d (inr mem) c =
    let ne : pv q ≢ 0 =
      prev-IsNotIn nx pv 0 q a (nx a) l (Chain-nonzero nx pv a (nx a) l c.3) c.1 mem c.3 in
    rw (==_ne (pv q) 0 ne, ==_ne a q (λ h. Mem-ne q a l d.0 mem (sym h)))
      (Chain-eq _ _ _ _ _ _ _ (a ∷ delete q l) (sym (put-update nx (pv q) (nx q) ne)) refl refl
        (Chain-unlink_rest nx pv q 0 p a l d mem c))

-- A list is read by the loop of search_in_bucket, whatever the fuel beyond its length.
pub IsNotIn-Mem : (p q : ℕ) (l : List ℕ) → IsNotIn p l → Mem q l → q ≢ p
IsNotIn-Mem p q [] out mem = absurd mem
IsNotIn-Mem p q (a ∷ l) out (inl e) = λ h. out.0 (e ∙ h)
IsNotIn-Mem p q (a ∷ l) out (inr mem) = IsNotIn-Mem p q l out.1 mem

pub delete-IsNotIn : (p : ℕ) (l : List ℕ) → IsDistinct l → IsNotIn p (delete p l)
delete-IsNotIn p [] d = tt
delete-IsNotIn p (a ∷ l) d = elim (Bool-cases (a == p)) [
  | inl e ↦ rw e (subst (λ q. IsNotIn q l) (eq_of_== _ _ e) d.0)
  | inr e ↦ rw e (ne_of_== _ _ e, delete-IsNotIn p l d.1)
]

pub length-delete : (p : ℕ) (l : List ℕ) → length (delete p l) ≤ length l
length-delete p [] = omega arith
length-delete p (a ∷ l) = elim (Bool-cases (a == p)) [
  | inl e ↦ rw e (omega arith)
  | inr e ↦ rw e (omega (arith, length-delete p l))
]
