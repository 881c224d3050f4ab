-- ===== src/Hook/Threads/Counting.antt =====
-- What the operations of the registry do to the references of an entry: those that the table
-- keeps, and those that somebody holds.
use mac_osx_file_system_filt.Base.{
  ℕ, ◌+◌, ◌-◌, ◌≤◌, ◌≡◌, ◌≢◌, sym, ◌∙◌, Bool-cases, inl, inr, if◌then◌else◌, ◌==◌, arith, ==_refl,
  ==_ne, eq_of_==, ne_of_==,
}
use mac_osx_file_system_filt.Hook.Entry.{
  retain, release, increment_vnode_counter, decrement_vnode_counter,
}
use mac_osx_file_system_filt.Hook.HashTable.{HashTable}
use mac_osx_file_system_filt.Hook.Ops.{increment, decrement}
use mac_osx_file_system_filt.Hook.Registry.{Registry, modify_entry}

-- 1 for the address itself.
abbrev pub one : ℕ → ℕ → ℕ
one e a = if e == a then 1 else 0

pub one-ne : (e a : ℕ) → e ≢ a → one e a ≡ 0
one-ne e a h = rw (==_ne e a h)

pub one-le : (e a : ℕ) → one e a ≤ 1
one-le e a = ground arith

module _ {T : Type 0} where
  abbrev pub references : Registry T → ℕ → ℕ
  references r a = (r.entries a).retain_count

  module _ (r : Registry T) (e a : ℕ) where
    -- What each change of the entry at `e` does to the count of the one at `a`.
    pub retain-references : references (modify_entry r e retain) a ≡ references r a + one e a
    unfolding retain
    retain-references = ground arith

    pub release-references : references (modify_entry r e release) a ≡ references r a - one e a
    unfolding release
    release-references = ground arith

    pub increment-references : references (modify_entry r e increment) a ≡ references r a
    unfolding increment_vnode_counter
    increment-references = ground arith

    pub decrement-references : references (modify_entry r e decrement) a ≡ references r a
    unfolding decrement_vnode_counter
    decrement-references = ground arith

module _ ⦃g : HashTable⦄ where
  -- How many references the table keeps to the entry at `a`: it is the datum of one key or of none.
  pub data Stored (t : g.Table) (a : ℕ) : ℕ → Type 0 where
    absent : ((k : ℕ) → g.ght_get t k ≢ a) → Stored t a 0
    present : (k : ℕ) → g.ght_get t k ≡ a → ((j : ℕ) → g.ght_get t j ≡ a → j ≡ k) → Stored t a 1

  -- The datum of a key is stored.
  pub Stored-ge : (t : g.Table) (k a : ℕ) {m : ℕ} → Stored t a m → one (g.ght_get t k) a ≤ m
  Stored-ge t k a (absent never) = rw (one-ne (g.ght_get t k) a (never k)) (omega arith)
  Stored-ge t k a (present i e only) = one-le (g.ght_get t k) a

  -- A key `k` that had no datum has got `d`, which was the datum of no key.
  pub Stored-insert :
      (t u : g.Table) (d k a : ℕ) {m : ℕ}
      → ((j : ℕ) → g.ght_get u j ≡ (if k == j then d else g.ght_get t j))
      → g.ght_get t k ≡ 0
      → ((j : ℕ) → g.ght_get t j ≢ d)
      → a ≢ 0
      → Stored t a m
      → Stored u a (m + one d a)
  Stored-insert t u d k a get missing new named (absent never) = elim (Bool-cases (d == a)) [
    | inl same ↦
        let hit = eq_of_== d a same in
        let c : 0 + one d a ≡ 1 = rw same in
        rw c (present k (get k ∙ rw (==_refl k) hit) (λ j e. ground (arith, get j, never j, e)))
    | inr other ↦ rw other (absent (λ j e. ground (arith, get j, never j, e)))
  ]
  Stored-insert t u d k a get missing new named (present i e only) =
      rw (==_ne d a (λ h. new i (e ∙ sym h)))
        (present i (ground (arith, get i, e)) (λ j e'. ground (arith, get j, only j, e', new i)))

  -- A key `k` is removed.
  pub Stored-remove :
      (t u : g.Table) (k a : ℕ) {m : ℕ}
      → ((j : ℕ) → g.ght_get u j ≡ (if k == j then 0 else g.ght_get t j))
      → a ≢ 0
      → Stored t a m
      → Stored u a (m - one (g.ght_get t k) a)
  Stored-remove t u k a get named (absent never) =
      let c : 0 - one (g.ght_get t k) a ≡ 0 = omega arith in
      rw c (absent (λ j e. ground (arith, get j, never j, e)))
  Stored-remove t u k a get named (present i e only) = elim (Bool-cases (k == i)) [
    | inl same ↦
        let hit = eq_of_== k i same in
        let c : 1 - one (g.ght_get t k) a ≡ 0 = rw (hit, e, ==_refl a) in
        rw c (absent (λ j e'. ground (arith, get j, only j, e')))
    | inr differs ↦
        let other = ne_of_== k i differs in
        let c : 1 - one (g.ght_get t k) a ≡ 1 =
          rw (==_ne (g.ght_get t k) a (λ h. other (only k h))) in
        rw c (present i (ground (arith, get i, e)) (λ j e'. ground (arith, get j, only j, e')))
  ]

  -- The table answers the same.
  pub Stored-same :
      (t u : g.Table) (a : ℕ) {m : ℕ}
      → ((j : ℕ) → g.ght_get u j ≡ g.ght_get t j)
      → Stored t a m
      → Stored u a m
  Stored-same t u a same (absent never) = absent (λ k e. never k (sym (same k) ∙ e))
  Stored-same t u a same (present k e only) =
      present k (same k ∙ e) (λ j e'. only j (sym (same j) ∙ e'))
