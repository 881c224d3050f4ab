-- ===== src/VmPmap/Copy.antt =====
-- Lemmas on the copy loop of FltWriteWiredSrcToWiredDst.
use mac_osx_file_system_filt.Base.{
  ℕ, zero, suc, ◌+◌, ◌-◌, ◌*◌, ◌%◌, ◌^◌, ◌≤◌, ◌<◌, ◌≡◌, ◌≢◌, refl, if◌then◌else◌, ◌==◌, Bool-cases,
  inl, inr, eq_of_==, ne_of_==, ==_ne, arith,
}
use mac_osx_file_system_filt.VmPmap.{
  Pmap, page_size, flt_virt_to_phys, count, write_loop, flt_write_wired_src_to_wired_dst,
}

module _ {M : Type 0} (k : Pmap M) where
  -- A round copies at least a byte, at most what is left, and within one page on each side.
  count-bounds :
      (s d resid : ℕ)
      → 0 < resid
      → (0 < count k s d resid)
        × (count k s d resid ≤ resid)
        × (s % page_size + count k s d resid ≤ page_size)
        × (d % page_size + count k s d resid ≤ page_size)
  unfolding count
  count-bounds s d resid pos = ground arith

  write_loop-done : (fuel src dst : ℕ) (m : M) → write_loop k fuel src dst 0 m ≡ (0, m)
  unfolding write_loop
  write_loop-done zero src dst m = refl
  write_loop-done (suc fuel) src dst m = refl

  module _ (fuel src dst resid : ℕ) (m : M) where
    write_loop-unmapped_dst :
        flt_virt_to_phys k dst ≡ 0 → write_loop k (suc fuel) src dst resid m ≡ (resid, m)
    unfolding write_loop
    write_loop-unmapped_dst e = elim (Bool-cases (resid == 0)) [ inl z ↦ rw z | inr z ↦ rw (z, e) ]

    write_loop-unmapped_src :
        flt_virt_to_phys k src ≡ 0 → write_loop k (suc fuel) src dst resid m ≡ (resid, m)
    unfolding write_loop
    write_loop-unmapped_src e = elim (Bool-cases (resid == 0)) [
      | inl z ↦ rw z
      | inr z ↦ elim (Bool-cases (flt_virt_to_phys k dst == 0)) [
        | inl w ↦ rw (z, w)
        | inr w ↦ rw (z, w, e)
      ]
    ]

    write_loop-round :
        resid ≢ 0
        → flt_virt_to_phys k dst ≢ 0
        → flt_virt_to_phys k src ≢ 0
        → let cnt = count k (flt_virt_to_phys k src) (flt_virt_to_phys k dst) resid in
          write_loop k (suc fuel) src dst resid m
          ≡ write_loop k fuel
              ((src + cnt) % 2 ^ 64)
              ((dst + cnt) % 2 ^ 64)
              (resid - cnt)
              (k.bcopy_phys (flt_virt_to_phys k src) (flt_virt_to_phys k dst) cnt m)
    unfolding write_loop
    write_loop-round z d s = rw (==_ne _ _ z, ==_ne _ _ d, ==_ne _ _ s)

  -- Every byte of the range has a physical page.
  abbrev pub IsMapped : ℕ → ℕ → Type 0
  IsMapped start len = (i : ℕ) → i < len → flt_virt_to_phys k ((start + i) % 2 ^ 64) ≢ 0

  IsMapped-start : (a len : ℕ) → a < 2 ^ 64 → 0 < len → IsMapped a len → flt_virt_to_phys k a ≢ 0
  IsMapped-start a len small pos mapped =
      let e : (a + 0) % 2 ^ 64 ≡ a = omega arith in rw e at (mapped 0 pos)

  IsMapped-rest : (a len n : ℕ) → n ≤ len → IsMapped a len → IsMapped ((a + n) % 2 ^ 64) (len - n)
  IsMapped-rest a len n le mapped i small =
      let e : ((a + n) % 2 ^ 64 + i) % 2 ^ 64 ≡ (a + (n + i)) % 2 ^ 64 = omega arith in
      rw e (mapped (n + i) (omega arith))

  write_loop-mapped :
      (fuel src dst resid : ℕ) (m : M)
      → resid ≤ fuel
      → src < 2 ^ 64
      → dst < 2 ^ 64
      → IsMapped src resid
      → IsMapped dst resid
      → (write_loop k fuel src dst resid m).0 ≡ 0
  write_loop-mapped fuel src dst zero m enough ss ds sm dm = rw (write_loop-done fuel src dst m)
  write_loop-mapped zero src dst (suc resid) m enough ss ds sm dm = absurd (omega (arith, enough))
  write_loop-mapped (suc fuel) src dst (suc resid) m enough ss ds sm dm =
      let s = IsMapped-start src (suc resid) ss (omega arith) sm in
      let d = IsMapped-start dst (suc resid) ds (omega arith) dm in
      let (pos, le, _, _) =
        count-bounds (flt_virt_to_phys k src) (flt_virt_to_phys k dst) (suc resid) (omega arith) in
      rw (write_loop-round fuel src dst (suc resid) m (omega arith) d s) (
        write_loop-mapped fuel _ _ _ _ (omega (arith, enough, pos)) (omega arith) (omega arith)
          (IsMapped-rest src (suc resid) _ le sm) (IsMapped-rest dst (suc resid) _ le dm))

  -- If every byte of both ranges is mapped, the addresses fit 64 bits and the length fits an
  -- unsigned int, nothing is left to copy, and the function returns the whole length.
  pub flt_write_wired-mapped :
      (src dst len : ℕ) (m : M)
      → src < 2 ^ 64
      → dst < 2 ^ 64
      → len < 2 ^ 32
      → IsMapped src len
      → IsMapped dst len
      → (flt_write_wired_src_to_wired_dst k src dst len m).0 ≡ len
  unfolding flt_write_wired_src_to_wired_dst
  flt_write_wired-mapped src dst len m ss ds small sm dm =
      rw (write_loop-mapped len src dst len m (omega arith) ss ds sm dm) (omega arith)

  module _ (P : M → Type 0)
      (copy : (s d n : ℕ) (m : M)
        → 0 < n
        → s % page_size + n ≤ page_size
        → d % page_size + n ≤ page_size
        → P m
        → P (k.bcopy_phys s d n m)) where
    write_loop-invariant :
        (fuel src dst resid : ℕ) (m : M) → P m → P (write_loop k fuel src dst resid m).1
    unfolding write_loop
    write_loop-invariant zero src dst resid m p = p
    write_loop-invariant (suc fuel) src dst resid m p = elim (Bool-cases (resid == 0)) [
      | inl z ↦ rw z p
      | inr z ↦ elim (Bool-cases (flt_virt_to_phys k dst == 0)) [
        | inl d ↦ rw (z, d) p
        | inr d ↦ elim (Bool-cases (flt_virt_to_phys k src == 0)) [
          | inl s ↦ rw (z, d, s) p
          | inr s ↦
              let (pos, _, in_src, in_dst) =
                count-bounds (flt_virt_to_phys k src) (flt_virt_to_phys k dst) resid
                  (omega (arith, ne_of_== resid 0 z)) in
              rw (z, d, s) (write_loop-invariant fuel _ _ _ _ (copy _ _ _ m pos in_src in_dst p))
        ]
      ]
    ]

    -- Every physical copy is of at least one byte, and stays in one page of the source and in one
    -- of the destination: what such copies preserve, the whole function preserves.
    pub flt_write_wired-invariant :
        (src dst len : ℕ) (m : M) → P m → P (flt_write_wired_src_to_wired_dst k src dst len m).1
    unfolding flt_write_wired_src_to_wired_dst
    flt_write_wired-invariant src dst len m p = write_loop-invariant len src dst len m p

  shifted : (n : ℕ) → n * 2 ^ 12 % 2 ^ 64 % page_size ≡ 0
  shifted n = omega arith

  offset_of : (a : ℕ) → flt_virt_to_phys k a ≢ 0 → flt_virt_to_phys k a % page_size ≡ a % page_size
  unfolding flt_virt_to_phys
  offset_of a ne = elim (Bool-cases (k.pmap_find_phys a * 2 ^ 12 % 2 ^ 64 == 0)) [
    | inl null ↦ absurd (ne (rw null refl))
    | inr page ↦ rw page (omega (arith, shifted (k.pmap_find_phys a)))
  ]

  count-word :
      (s d : ℕ)
      → s % page_size + 8 ≤ page_size
      → d % page_size + 8 ≤ page_size
      → flt_virt_to_phys k s ≢ 0
      → flt_virt_to_phys k d ≢ 0
      → count k (flt_virt_to_phys k s) (flt_virt_to_phys k d) 8 ≡ 8
  unfolding count
  count-word s d hs hd ns nd = ground (arith, offset_of s ns, offset_of d nd)

  -- A word of eight bytes that lies within a page on both sides is written by one copy, or not
  -- at all when a side has no page.
  pub flt_write_wired-word :
      (src dst : ℕ) (m : M)
      → src % page_size + 8 ≤ page_size
      → dst % page_size + 8 ≤ page_size
      → flt_write_wired_src_to_wired_dst k src dst 8 m ≡ (
          if flt_virt_to_phys k dst == 0
          then (0, m)
          else if flt_virt_to_phys k src == 0
          then (0, m)
          else (8, k.bcopy_phys (flt_virt_to_phys k src) (flt_virt_to_phys k dst) 8 m))
  unfolding flt_write_wired_src_to_wired_dst
  flt_write_wired-word src dst m in_src in_dst = elim (Bool-cases (flt_virt_to_phys k dst == 0)) [
    | inl d ↦ rw (write_loop-unmapped_dst 7 src dst 8 m (eq_of_== _ _ d), d)
    | inr d ↦ elim (Bool-cases (flt_virt_to_phys k src == 0)) [
      | inl s ↦ rw (write_loop-unmapped_src 7 src dst 8 m (eq_of_== _ _ s), d, s)
      | inr s ↦
          rw
            (
              write_loop-round 7 src dst 8 m (omega arith) (ne_of_== _ _ d) (ne_of_== _ _ s),
              count-word src dst in_src in_dst (ne_of_== _ _ s) (ne_of_== _ _ d),
              write_loop-done 7 _ _ _,
              d,
              s,
            )
            refl
    ]
  ]
