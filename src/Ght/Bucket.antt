-- ===== src/Ght/Bucket.antt =====
-- The private functions of FsdFilter/CommonHashTable.cpp, on a bucket and on one entry.
use mac_osx_file_system_filt.Base.{
  ℕ, zero, suc, ◌+◌, true, false, if◌then◌else◌, ◌==◌, ◌&&◌, update,
}
use mac_osx_file_system_filt.Ght.{GhtHashKey, same_key, Memory, GhtHashTable}

-- p->field = v
abbrev pub set_next : Memory → ℕ → ℕ → Memory
set_next m p v = record m { p_next = update m.p_next p v }

abbrev pub set_prev : Memory → ℕ → ℕ → Memory
set_prev m p v = record m { p_prev = update m.p_prev p v }

abbrev pub set_older : Memory → ℕ → ℕ → Memory
set_older m p v = record m { p_older = update m.p_older p v }

abbrev pub set_newer : Memory → ℕ → ℕ → Memory
set_newer m p v = record m { p_newer = update m.p_newer p v }

-- p_ht->pp_entries[l_bucket] = p
abbrev pub set_entry : GhtHashTable → ℕ → ℕ → GhtHashTable
set_entry t l_bucket p = record t { pp_entries = update t.pp_entries l_bucket p }

unfoldable pub transpose : GhtHashTable → Memory → ℕ → ℕ → GhtHashTable × Memory
transpose t m l_bucket p_entry =
    let p_x = m.p_prev p_entry in
    let p_a = m.p_prev p_x in
    let p_b = m.p_next p_entry in
    let m1 = if p_a == 0 then m else set_next m p_a p_entry in
    let t1 = if p_a == 0 then set_entry t l_bucket p_entry else t in
    let m2 = if p_b == 0 then m1 else set_prev m1 p_b p_x in
    let m3 = set_prev (set_next m2 p_x (m2.p_next p_entry)) p_x p_entry in
    if p_x == 0 then (t, m) else (t1, set_prev (set_next m3 p_entry p_x) p_entry p_a)

unfoldable pub move_to_front : GhtHashTable → Memory → ℕ → ℕ → GhtHashTable × Memory
move_to_front t m l_bucket p_entry =
    let first = t.pp_entries l_bucket in
    let m1 = set_next m (m.p_prev p_entry) (m.p_next p_entry) in
    let p_n = m1.p_next p_entry in
    let m2 = if p_n == 0 then m1 else set_prev m1 p_n (m1.p_prev p_entry) in
    let m3 = set_prev (set_prev (set_next m2 p_entry first) p_entry 0) first p_entry in
    if p_entry == first then (t, m) else (set_entry t l_bucket p_entry, m3)

-- The first half of remove_from_chain: the bucket's list.
unfoldable pub unlink_bucket : GhtHashTable → Memory → ℕ → ℕ → GhtHashTable × Memory
unlink_bucket t m l_bucket p =
    let m1 = if m.p_prev p == 0 then m else set_next m (m.p_prev p) (m.p_next p) in
    let t1 = if m.p_prev p == 0 then set_entry t l_bucket (m.p_next p) else t in
    (t1, if m1.p_next p == 0 then m1 else set_prev m1 (m1.p_next p) (m1.p_prev p))

-- The second half: the list by age.
unfoldable pub unlink_age : GhtHashTable → Memory → ℕ → GhtHashTable × Memory
unlink_age t m p =
    let m1 = if m.p_older p == 0 then m else set_newer m (m.p_older p) (m.p_newer p) in
    let t1 = if m.p_older p == 0 then record t { p_oldest = m.p_newer p } else t in
    let m2 = if m1.p_newer p == 0 then m1 else set_older m1 (m1.p_newer p) (m1.p_older p) in
    let t2 = if m1.p_newer p == 0 then record t1 { p_newest = m1.p_older p } else t1 in (t2, m2)

unfoldable pub remove_from_chain : GhtHashTable → Memory → ℕ → ℕ → GhtHashTable × Memory
remove_from_chain t m l_bucket p = let (t', m') = unlink_bucket t m l_bucket p in unlink_age t' m' p

-- The loop of search_in_bucket: the entry that is found, or 0.
unfoldable pub search_loop : ℕ → Memory → ℕ → GhtHashKey → ℕ
search_loop zero m p_e p_key = 0
search_loop (suc fuel) m p_e p_key =
    let rest = search_loop fuel m (m.p_next p_e) p_key in
    if p_e == 0 then 0 else if same_key (m.key p_e) p_key then p_e else rest

-- GHT_HEURISTICS_TRANSPOSE and GHT_HEURISTICS_MOVE_TO_FRONT
abbrev pub heuristics_transpose : ℕ
heuristics_transpose = 1

abbrev pub heuristics_move_to_front : ℕ
heuristics_move_to_front = 2

unfoldable pub apply_heuristics : GhtHashTable → Memory → ℕ → ℕ → ℕ → GhtHashTable × Memory
apply_heuristics t m l_bucket p_e i_heuristics =
    if i_heuristics == heuristics_move_to_front
    then move_to_front t m l_bucket p_e
    else if i_heuristics == heuristics_transpose
    then transpose t m l_bucket p_e
    else (t, m)

-- search_in_bucket. A list has at most as many entries as were allocated.
unfoldable pub search_in_bucket :
    GhtHashTable → Memory → ℕ → GhtHashKey → ℕ → ℕ × GhtHashTable × Memory
search_in_bucket t m l_bucket p_key i_heuristics =
    let p_e = search_loop m.allocations m (t.pp_entries l_bucket) p_key in
    let moved = apply_heuristics t m l_bucket p_e i_heuristics in
    if p_e == 0 then (0, t, m) else (p_e, moved.0, moved.1)

-- The two attempts of he_create to get memory: the second blocks.
unfoldable pub allocate : GhtHashTable → Memory → ℕ
allocate t m =
    let first = t.fn_alloc t.non_block m.live in
    if (first == 0) && t.non_block then t.fn_alloc false m.live else first

-- he_create: the new entry, or 0.
unfoldable pub he_create : GhtHashTable → Memory → ℕ → GhtHashKey → ℕ × Memory
he_create t m p_entry_data p_key =
    let p_he = allocate t m in
    let made : Memory = record {
      p_next = update m.p_next p_he 0;
      p_prev = update m.p_prev p_he 0;
      key = update m.key p_he p_key;
      p_data = update m.p_data p_he p_entry_data;
      p_older = update m.p_older p_he 0;
      p_newer = update m.p_newer p_he 0;
      live = update m.live p_he true;
      allocations = m.allocations + 1;
    } in
    if p_he == 0 then (0, m) else (p_he, made)

-- he_finalize
unfoldable pub he_finalize : Memory → ℕ → Memory
he_finalize m p_he = record m { live = update m.live p_he false }

-- free_entry_chain: the successor is read before an entry is freed.
unfoldable pub free_entry_chain : ℕ → Memory → ℕ → Memory
free_entry_chain zero m p_e = m
free_entry_chain (suc fuel) m p_e =
    let rest = free_entry_chain fuel (he_finalize m p_e) (m.p_next p_e) in
    if p_e == 0 then m else rest
