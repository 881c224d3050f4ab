-- ===== src/Ght/Heuristics.antt =====
-- ght_get of FsdFilter/CommonHashTable.cpp under GHT_HEURISTICS_MOVE_TO_FRONT, against the search
-- without heuristics.
use mac_osx_file_system_filt.Base.{
  ℕ, ◌≡◌, ◌≢◌, inl, inr, refl, sym, ap, subst, ◌∙◌, Bool-cases, if◌then◌else◌, ◌==◌, ==_refl, ==_ne,
  eq_of_==, ne_of_==, List, [], ◌∷◌,
}
use mac_osx_file_system_filt.Ght.{GhtHashKey, Memory, GhtHashTable}
use mac_osx_file_system_filt.Ght.Bucket.{
  move_to_front, search_in_bucket, apply_heuristics, heuristics_move_to_front,
}
use mac_osx_file_system_filt.Ght.Chain.{put, Mem}
use mac_osx_file_system_filt.Ght.Find.{search_loop-find}
use mac_osx_file_system_filt.Ght.Front.{fronted, nonempty, behind, front-IsLinked, found-front}
use mac_osx_file_system_filt.Ght.Linked.{IsLinked}
use mac_osx_file_system_filt.Ght.Plain.{search-found}
use mac_osx_file_system_filt.Ght.Table.{bucket_of, ght_get, ght_set_heuristics}
use mac_osx_file_system_filt.Ght.Value.{found, value, value_of, found-Mem}
use mac_osx_file_system_filt.Ght.View.{View, view, update-own}

move_to_front-first :
    (t : GhtHashTable) (m : Memory) (b p : ℕ) → p ≡ t.pp_entries b → move_to_front t m b p ≡ (t, m)
unfolding move_to_front
move_to_front-first t m b p e = rw (e, ==_refl (t.pp_entries b)) refl

move_to_front-view :
    (t : GhtHashTable) (m : Memory) (h : IsLinked (view t m)) (p b : ℕ) (mem : Mem p (h.entries b))
    (later : p ≢ t.pp_entries b)
    → view (move_to_front t m b p).0 (move_to_front t m b p).1 ≡ fronted (view t m) h p b mem later
unfolding move_to_front fronted put
move_to_front-view t m h p b mem later =
    let before = ==_ne (m.p_prev p) 0 (behind (view t m) h p b mem later) in
    let some_first = ==_ne (t.pp_entries b) 0 (nonempty (view t m) h p b mem later) in
    elim (Bool-cases (m.p_next p == 0)) [
      | inl f ↦ rw (==_ne _ _ later, update-own m.p_next (m.p_prev p) p, f, before, some_first) refl
      | inr f ↦ rw (==_ne _ _ later, update-own m.p_next (m.p_prev p) p, f, before, some_first) refl
    ]

-- The entry that is found is moved to the front; without one, nothing changes.
module _ (t : GhtHashTable) (m : Memory) (h : IsLinked (view t m)) (k : GhtHashKey) where
  search-front : search_in_bucket t m (bucket_of t k) k heuristics_move_to_front ≡ (
    found (view t m) h k,
    if found (view t m) h k == 0
        then t
        else (move_to_front t m (bucket_of t k) (found (view t m) h k)).0,
    if found (view t m) h k == 0
        then m
        else (move_to_front t m (bucket_of t k) (found (view t m) h k)).1,
  )
  unfolding search_in_bucket apply_heuristics
  search-front =
      let b = bucket_of t k in
      let e =
        search_loop-find m.allocations m 0 (t.pp_entries b) (h.entries b) k (h.short b)
          (h.chained b) in
      elim (Bool-cases (found (view t m) h k == 0)) [
        | inl z ↦ rw (e, z) (rw (eq_of_== _ _ z) refl)
        | inr z ↦ rw (e, z) refl
      ]

  -- What a lookup leaves: a table whose buckets hold the same, with the same options.
  moved-view :
      (z : found (view t m) h k ≢ 0)
      → let moved = move_to_front t m (bucket_of t k) (found (view t m) h k) in
        (h' : IsLinked (view moved.0 moved.1)) × ((j : GhtHashKey)
          → value (view moved.0 moved.1) h' j ≡ value (view t m) h j)
        × (moved.0.i_heuristics ≡ t.i_heuristics)
        × (moved.1.p_data ≡ m.p_data)
  unfolding fronted
  moved-view z =
      let p = found (view t m) h k in
      let b = bucket_of t k in
      let mem = found-Mem (view t m) h k z in
      elim (Bool-cases (p == t.pp_entries b)) [
        | inl e ↦ rw (move_to_front-first t m b p (eq_of_== _ _ e)) (h, (λ j. refl), refl, refl)
        | inr e ↦
            let later = ne_of_== _ _ e in
            let same = move_to_front-view t m h p b mem later in
            let front = front-IsLinked (view t m) h p b mem later in
            let (h', values) =
              subst
                (λ x. (h' : IsLinked x) × ((j : GhtHashKey) → value x h' j ≡ value (view t m) h j))
                (sym same)
                (front, λ j. ap (value_of (view t m)) (found-front (view t m) h p b mem later j)) in
            (h', values, ap View.i_heuristics same, ap View.p_data same)
      ]

module _ (t : GhtHashTable) (m : Memory) (h : IsLinked (view t m))
    (heuristics : t.i_heuristics ≡ heuristics_move_to_front) where
  get-search :
      (k : GhtHashKey)
      → ght_get t m k ≡ (
        value (view t m) h k,
        if found (view t m) h k == 0
            then t
            else (move_to_front t m (bucket_of t k) (found (view t m) h k)).0,
        if found (view t m) h k == 0
            then m
            else (move_to_front t m (bucket_of t k) (found (view t m) h k)).1,
      )
  unfolding ght_get
  get-search k =
      let searched =
        ap (search_in_bucket t m (bucket_of t k) k) heuristics ∙ search-front t m h k in
      elim (Bool-cases (found (view t m) h k == 0)) [
        | inl z ↦ rw (searched, z) refl
        | inr z ↦
            let (_, _, _, kept) = moved-view t m h k (ne_of_== _ _ z) in
            rw (searched, z) (rw kept refl)
      ]

  plain_search : (k : GhtHashKey) → (ght_get (ght_set_heuristics t 0) m k).0 ≡ value (view t m) h k
  unfolding ght_get ght_set_heuristics
  plain_search k =
      let same : IsLinked (view (record t { i_heuristics = 0 }) m) = record {
        entries = h.entries;
        chained = h.chained;
        located = h.located;
        unique = h.unique;
        short = h.short;
      } in
      rw (search-found (record t { i_heuristics = 0 }) m same k) refl

  -- What a lookup leaves behind.
  lookup-IsLinked :
      (k : GhtHashKey)
      → let r = ght_get t m k in
        (h' : IsLinked (view r.1 r.2)) × ((j : GhtHashKey)
          → value (view r.1 r.2) h' j ≡ value (view t m) h j)
        × (r.1.i_heuristics ≡ heuristics_move_to_front)
  lookup-IsLinked k = elim (Bool-cases (found (view t m) h k == 0)) [
    | inl z ↦ rw (get-search k, z) (h, (λ j. refl), heuristics)
    | inr z ↦
        let (h', values, kept, _) = moved-view t m h k (ne_of_== _ _ z) in
        rw (get-search k, z) (h', values, kept ∙ heuristics)
  ]

-- What a sequence of calls of ght_get returns, each on the table that the one before left.
unfoldable pub lookups : List GhtHashKey → GhtHashTable → Memory → List ℕ
lookups [] t m = []
lookups (k ∷ keys) t m = let r = ght_get t m k in r.0 ∷ lookups keys r.1 r.2

abbrev pub each_lookup : (GhtHashKey → ℕ) → List GhtHashKey → List ℕ
each_lookup f [] = []
each_lookup f (k ∷ keys) = f k ∷ each_lookup f keys

lookups-values :
    (keys : List GhtHashKey) (t : GhtHashTable) (m : Memory) (h : IsLinked (view t m))
    (f : GhtHashKey → ℕ)
    → t.i_heuristics ≡ heuristics_move_to_front
    → ((j : GhtHashKey) → value (view t m) h j ≡ f j)
    → lookups keys t m ≡ each_lookup f keys
unfolding lookups
lookups-values [] t m h f front e = refl
lookups-values (k ∷ keys) t m h f front e =
    let (h', values, front') = lookup-IsLinked t m h front k in
    let r = ght_get t m k in
    ap (λ x. x ∷ lookups keys r.1 r.2) (ap (λ x. x.0) (get-search t m h front k) ∙ e k)
    ∙ ap (λ l. f k ∷ l) (lookups-values keys r.1 r.2 h' f front' (λ j. values j ∙ e j))

-- On a well-formed table with GHT_HEURISTICS_MOVE_TO_FRONT, a sequence of calls of ght_get, each of
-- which may reorder a bucket, returns what the table without heuristics returns for each key.
pub lookups-each_lookup :
    (keys : List GhtHashKey) (t : GhtHashTable) (m : Memory) (h : IsLinked (view t m))
    → t.i_heuristics ≡ heuristics_move_to_front
    → lookups keys t m ≡ each_lookup (λ k. (ght_get (ght_set_heuristics t 0) m k).0) keys
lookups-each_lookup keys t m h front =
    lookups-values keys t m h _ front (λ j. sym (plain_search t m h front j))
