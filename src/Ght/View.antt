-- ===== src/Ght/View.antt =====
-- What the buckets of FsdFilter/CommonHashTable.cpp are read from: the table and the memory without
-- the counters and the list by age. The operations on buckets, on that view.
use mac_osx_file_system_filt.Base.{
  ℕ, ◌+◌, ◌≡◌, ◌≢◌, refl, ap, ◌∙◌, inl, inr, Bool, true, false, Bool-cases, if◌then◌else◌, ◌==◌,
  ==_ne, update,
}
use mac_osx_file_system_filt.Ght.{GhtHashKey, Memory, GhtHashTable}
use mac_osx_file_system_filt.Ght.Bucket.{
  unlink_bucket, unlink_age, remove_from_chain, he_create, he_finalize, allocate,
}
use mac_osx_file_system_filt.Ght.Chain.{put}
use mac_osx_file_system_filt.Ght.Table.{
  bucket_of, take_out, link_first, link_newest, limit_bucket, add_entry, BucketFree,
}

pub record View : Type 0 where
  pub pp_entries : ℕ → ℕ
  pub bucket : GhtHashKey → ℕ
  pub p_next : ℕ → ℕ
  pub p_prev : ℕ → ℕ
  pub key : ℕ → GhtHashKey
  pub p_data : ℕ → ℕ
  pub live : ℕ → Bool
  pub allocations : ℕ
  pub i_heuristics : ℕ
  pub i_automatic_rehash : Bool
  pub bucket_limit : ℕ
  pub non_block : Bool
  pub fn_alloc : Bool → (ℕ → Bool) → ℕ

abbrev pub view : GhtHashTable → Memory → View
view t m = record {
  pp_entries = t.pp_entries;
  bucket = bucket_of t;
  p_next = m.p_next;
  p_prev = m.p_prev;
  key = m.key;
  p_data = m.p_data;
  live = m.live;
  allocations = m.allocations;
  i_heuristics = t.i_heuristics;
  i_automatic_rehash = t.i_automatic_rehash;
  bucket_limit = t.bucket_limit;
  non_block = t.non_block;
  fn_alloc = t.fn_alloc;
}

abbrev pub create_view : View → ℕ → ℕ → GhtHashKey → View
create_view v p d k = record v {
  p_next = update v.p_next p 0;
  p_prev = update v.p_prev p 0;
  key = update v.key p k;
  p_data = update v.p_data p d;
  live = update v.live p true;
  allocations = v.allocations + 1;
}

abbrev pub link_view : View → ℕ → ℕ → View
link_view v b p = record v {
  pp_entries = update v.pp_entries b p;
  p_next = update v.p_next p (v.pp_entries b);
  p_prev = put (update v.p_prev p 0) (v.pp_entries b) p;
}

abbrev pub unlink_view : View → ℕ → ℕ → View
unlink_view v b p = record v {
  pp_entries = if v.p_prev p == 0 then update v.pp_entries b (v.p_next p) else v.pp_entries;
  p_next = put v.p_next (v.p_prev p) (v.p_next p);
  p_prev = put v.p_prev (v.p_next p) (v.p_prev p);
}

abbrev pub drop_view : View → ℕ → View
drop_view v p = record v {
  p_next = update v.p_next p 0;
  p_prev = update v.p_prev p 0;
  live = update v.live p false;
}

pub he_create-view :
    (t : GhtHashTable) (m : Memory) (d : ℕ) (k : GhtHashKey)
    → allocate t m ≢ 0
    → view t (he_create t m d k).1 ≡ create_view (view t m) (allocate t m) d k
unfolding he_create
he_create-view t m d k ne = rw (==_ne _ 0 ne) refl

pub link_first-view :
    (t : GhtHashTable) (m : Memory) (b p : ℕ)
    → view (link_first t m b p).0 (link_first t m b p).1 ≡ link_view (view t m) b p
unfolding link_first put
link_first-view t m b p = elim (Bool-cases (t.pp_entries b == 0)) [
  | inl e ↦ rw e refl
  | inr e ↦ rw e refl
]

-- The list by age is not read.
pub link_newest-view :
    (t : GhtHashTable) (m : Memory) (p : ℕ)
    → view (link_newest t m p).0 (link_newest t m p).1 ≡ view t m
unfolding link_newest
link_newest-view t m p = elim (Bool-cases (t.p_newest == 0)) [
  | inl e ↦ elim (Bool-cases (t.p_oldest == 0)) [ inl f ↦ rw (e, f) refl | inr f ↦ rw (e, f) refl ]
  | inr e ↦ elim (Bool-cases (t.p_oldest == 0)) [ inl f ↦ rw (e, f) refl | inr f ↦ rw (e, f) refl ]
]

pub limit_bucket-unlimited :
    (fn : BucketFree) (t : GhtHashTable) (m : Memory) (b : ℕ)
    → t.bucket_limit ≡ 0
    → view (limit_bucket fn t m b).0 (limit_bucket fn t m b).1 ≡ view t m
unfolding limit_bucket
limit_bucket-unlimited fn t m b h = rw h refl

pub unlink_age-view :
    (t : GhtHashTable) (m : Memory) (p : ℕ)
    → view (unlink_age t m p).0 (unlink_age t m p).1 ≡ view t m
unfolding unlink_age
unlink_age-view t m p = elim (Bool-cases (m.p_older p == 0)) [
  | inl e ↦ elim (Bool-cases (m.p_newer p == 0)) [ inl f ↦ rw (e, f) refl | inr f ↦ rw (e, f) refl ]
  | inr e ↦ elim (Bool-cases ((update m.p_newer (m.p_older p) (m.p_newer p)) p == 0)) [
    | inl f ↦ rw (e, f) refl
    | inr f ↦ rw (e, f) refl
  ]
]

-- A write to another entry's member that keeps the entry's own.
pub update-own : (f : ℕ → ℕ) (q p : ℕ) → update f q (f p) p ≡ f p
update-own f q p = elim (Bool-cases (q == p)) [ inl e ↦ rw e refl | inr e ↦ rw e refl ]

pub unlink_bucket-view :
    (t : GhtHashTable) (m : Memory) (b p : ℕ)
    → view (unlink_bucket t m b p).0 (unlink_bucket t m b p).1 ≡ unlink_view (view t m) b p
unfolding unlink_bucket put
unlink_bucket-view t m b p = elim (Bool-cases (m.p_prev p == 0)) [
  | inl e ↦ elim (Bool-cases (m.p_next p == 0)) [ inl f ↦ rw (e, f) refl | inr f ↦ rw (e, f) refl ]
  | inr e ↦ elim (Bool-cases (m.p_next p == 0)) [
    | inl f ↦ rw (e, update-own m.p_next (m.p_prev p) p, f) refl
    | inr f ↦ rw (e, update-own m.p_next (m.p_prev p) p, f) refl
  ]
]

pub take_out-view :
    (t : GhtHashTable) (m : Memory) (b p : ℕ)
    → view (take_out t m b p).0 (take_out t m b p).1 ≡ drop_view (unlink_view (view t m) b p) p
unfolding take_out remove_from_chain he_finalize
take_out-view t m b p =
    let unlinked = unlink_bucket t m b p in
    ap (λ v. drop_view v p) (unlink_age-view unlinked.0 unlinked.1 p ∙ unlink_bucket-view t m b p)

pub add_entry-view :
    (fn : BucketFree) (t : GhtHashTable) (m : Memory) (k : GhtHashKey) (p : ℕ)
    → t.bucket_limit ≡ 0
    → view (add_entry fn t m k p).0 (add_entry fn t m k p).1
      ≡ link_view (view t m) (bucket_of t k) p
unfolding add_entry
add_entry-view fn t m k p h =
    let linked = link_first t m (bucket_of t k) p in
    let limited = limit_bucket fn linked.0 linked.1 (bucket_of t k) in
    link_newest-view limited.0 limited.1 p
    ∙ (limit_bucket-unlimited fn linked.0 linked.1 (bucket_of t k)
          (ap View.bucket_limit (link_first-view t m (bucket_of t k) p) ∙ h)
        ∙ link_first-view t m (bucket_of t k) p)
