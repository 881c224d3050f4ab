-- ===== src/Ght/Hash.antt =====
-- The hash functions of FsdFilter/CommonHashTable.cpp, on 32-bit words.
use Prim.Native.Nat.{bit_xor}
use mac_osx_file_system_filt.Base.{ℕ, zero, suc, ◌+◌, ◌*◌, ◌/◌, ◌%◌, ◌^◌}
use mac_osx_file_system_filt.Ght.{GhtHashKey}

-- One round of ght_one_at_a_time_hash, on a byte.
abbrev pub one_at_a_time_round : ℕ → ℕ → ℕ
one_at_a_time_round i_hash byte =
    let added = (i_hash + byte) % 2 ^ 32 in
    let mixed = (added + added * 2 ^ 10) % 2 ^ 32 in bit_xor mixed (mixed / 2 ^ 6)

-- Its loop, over the bytes of a number.
unfoldable pub one_at_a_time_loop : ℕ → ℕ → ℕ → ℕ
one_at_a_time_loop zero bytes i_hash = i_hash
one_at_a_time_loop (suc n) bytes i_hash =
    one_at_a_time_loop n (bytes / 256) (one_at_a_time_round i_hash (bytes % 256))

unfoldable pub ght_one_at_a_time_hash : GhtHashKey → ℕ
ght_one_at_a_time_hash p_key =
    let looped = one_at_a_time_loop p_key.i_size p_key.key_data 0 in
    let added = (looped + looped * 2 ^ 3) % 2 ^ 32 in
    let mixed = bit_xor added (added / 2 ^ 11) in (mixed + mixed * 2 ^ 15) % 2 ^ 32

-- The loop of ght_rotating_hash.
unfoldable pub rotating_loop : ℕ → ℕ → ℕ → ℕ
rotating_loop zero bytes i_hash = i_hash
rotating_loop (suc n) bytes i_hash =
    rotating_loop n (bytes / 256)
      (bit_xor (bit_xor (i_hash * 2 ^ 4 % 2 ^ 32) (i_hash / 2 ^ 28)) (bytes % 256))

unfoldable pub ght_rotating_hash : GhtHashKey → ℕ
ght_rotating_hash p_key = rotating_loop p_key.i_size p_key.key_data 0
