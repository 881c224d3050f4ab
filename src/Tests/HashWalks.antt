-- ===== src/Tests/HashWalks.antt =====
-- Examples of the theorems on a hash table with an entry that is searched, moved and freed.
use mac_osx_file_system_filt.Base.{
  ℕ, ◌≡◌, ◌≢◌, refl, All, length, update, ==_ne, true, false, List, [], ◌∷◌, arith, ◌≤◌,
}
use mac_osx_file_system_filt.Ght.{Memory, GhtHashTable}
use mac_osx_file_system_filt.Ght.Bucket.{heuristics_move_to_front}
use mac_osx_file_system_filt.Ght.Hash.{ght_one_at_a_time_hash, one_at_a_time_loop}
use mac_osx_file_system_filt.Ght.Correct.{IsValid}
use mac_osx_file_system_filt.Ght.Instance.{pointer_key, no_memory_used}
use mac_osx_file_system_filt.Ght.Chain.{Chain, IsNotIn}
use mac_osx_file_system_filt.Ght.Heuristics.{lookups, each_lookup, lookups-each_lookup}
use mac_osx_file_system_filt.Ght.Finalize.{finalize-free_buckets}
use mac_osx_file_system_filt.Ght.Find.{IsUnique}
use mac_osx_file_system_filt.Ght.Linked.{with_bucket, by_bucket, IsLinked}
use mac_osx_file_system_filt.Ght.Plain.{IsPlain}
use mac_osx_file_system_filt.Ght.View.{view}
use mac_osx_file_system_filt.Ght.Iterate.{ght_finalize}
use mac_osx_file_system_filt.Ght.Table.{ght_get, bucket_of, ght_set_heuristics}
use mac_osx_file_system_filt.Tests.Hash.{small_table, two_entries_free}

-- A table of four buckets with the entry 16 alone in the bucket of its key.
abbrev own_bucket : ℕ
own_bucket = 0

abbrev held_table : GhtHashTable
held_table = record small_table { pp_entries = update (λ b. 0) own_bucket 16 }

abbrev held_memory : Memory
held_memory = record no_memory_used {
  key = λ p. pointer_key 80;
  p_data = λ p. 5;
  live = update (λ p. false) 16 true;
  allocations = 1;
}

own_bucket_lem : bucket_of held_table (pointer_key 80) ≡ own_bucket
unfolding ght_one_at_a_time_hash one_at_a_time_loop
own_bucket_lem = refl

abbrev held_entries : ℕ → List ℕ
held_entries = with_bucket (λ b. []) own_bucket (16 ∷ [])

abbrev held_linked : IsLinked (view held_table held_memory)
held_linked = record {
  entries = held_entries;
  chained =
      by_bucket (λ b. []) own_bucket (16 ∷ [])
        (λ b l. Chain held_memory.p_next held_memory.p_prev 0 (held_table.pp_entries b) l)
        (refl, omega arith, refl, refl) (λ b ne. rw (==_ne _ b ne) refl);
  located =
      by_bucket (λ b. []) own_bucket (16 ∷ [])
        (λ b l.
          All
            (λ a.
              (held_memory.live a ≡ true)
              × (bucket_of held_table (held_memory.key a) ≡ b)
              × (held_memory.p_data a ≢ 0))
            l)
        ((refl, own_bucket_lem, omega arith), tt) (λ b ne. tt);
  unique =
      by_bucket (λ b. []) own_bucket (16 ∷ []) (λ b l. IsUnique held_memory.key l) (tt, tt)
        (λ b ne. tt);
  short =
      by_bucket (λ b. []) own_bucket (16 ∷ []) (λ b l. length l ≤ 1) (omega arith)
        (λ b ne. omega arith);
}

held_IsPlain : IsPlain (view held_table held_memory)
held_IsPlain = record {
  no_heuristics = refl;
  no_rehash = refl;
  no_limit = refl;
  fresh = two_entries_free;
}

abbrev held_valid : IsValid held_table held_memory
held_valid = record { linked = held_linked; plain = held_IsPlain }

finalize-free_buckets_example :
    All (λ a. (ght_finalize held_table held_memory).0.live a ≡ false) (16 ∷ [])
    × ((ght_finalize held_table held_memory).0.live 32 ≡ false)
finalize-free_buckets_example =
    finalize-free_buckets held_table held_memory held_valid own_bucket 32 (omega arith) (
      by_bucket (λ b. []) own_bucket (16 ∷ []) (λ b l. IsNotIn 32 l) (omega arith, tt) (λ b ne. tt))

abbrev front_table : GhtHashTable
front_table = record held_table { i_heuristics = heuristics_move_to_front }

front_IsLinked : IsLinked (view front_table held_memory)
front_IsLinked = record {
  entries = held_linked.entries;
  chained = held_linked.chained;
  located = held_linked.located;
  unique = held_linked.unique;
  short = held_linked.short;
}

lookups-each_lookup_example :
    lookups (pointer_key 80 ∷ pointer_key 81 ∷ []) front_table held_memory
    ≡ each_lookup
        (λ k. (ght_get (ght_set_heuristics front_table 0) held_memory k).0)
        (pointer_key 80 ∷ pointer_key 81 ∷ [])
lookups-each_lookup_example =
    lookups-each_lookup (pointer_key 80 ∷ pointer_key 81 ∷ []) front_table held_memory
      front_IsLinked refl
