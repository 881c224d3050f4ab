-- ===== src/VmPmap.antt =====
-- FsdFilter/VmPmap.cpp: the translation of a kernel virtual address, and the copy between wired
-- ranges, one page fragment at a time, that writes a function pointer into a read-only vector.
pub mod Copy
use mac_osx_file_system_filt.Base.{ℕ, zero, suc, ◌+◌, ◌-◌, ◌*◌, ◌%◌, ◌^◌, if◌then◌else◌, ◌==◌, ltb}

-- PAGE_SIZE, which is also the range of INTEL_OFFMASK.
abbrev pub page_size : ℕ
page_size = 4096

-- pmap_find_phys on the kernel's map, and bcopy_phys( source, destination, count ) on the physical
-- memory.
pub record Pmap (M : Type 0) : Type 0 where
  pub pmap_find_phys : ℕ → ℕ
  pub bcopy_phys : ℕ → ℕ → ℕ → M → M

module _ {M : Type 0} (k : Pmap M) where
  -- FltVirtToPhys. The shifted page number has no bit of the offset, so `|` is a sum.
  unfoldable pub flt_virt_to_phys : ℕ → ℕ
  flt_virt_to_phys addr =
      let pa = k.pmap_find_phys addr * 2 ^ 12 % 2 ^ 64 in
      if pa == 0 then 0 else pa + addr % page_size

  -- The number of bytes that one round copies.
  unfoldable pub count : ℕ → ℕ → ℕ → ℕ
  count phys_src phys_dst resid =
      let cnt_src = page_size - phys_src % page_size in
      let cnt_dst = page_size - phys_dst % page_size in
      let cnt = if ltb cnt_dst cnt_src then cnt_dst else cnt_src in
      if ltb resid cnt then resid else cnt

  -- The loop of FltWriteWiredSrcToWiredDst: what is left to copy, and the memory.
  unfoldable pub write_loop : ℕ → ℕ → ℕ → ℕ → M → ℕ × M
  write_loop zero src dst resid m = (resid, m)
  write_loop (suc fuel) src dst resid m =
      let phys_dst = flt_virt_to_phys dst in
      let phys_src = flt_virt_to_phys src in
      let cnt = count phys_src phys_dst resid in
      let rest =
        write_loop fuel ((src + cnt) % 2 ^ 64) ((dst + cnt) % 2 ^ 64) (resid - cnt)
          (k.bcopy_phys phys_src phys_dst cnt m) in
      if resid == 0
      then (resid, m)
      else if phys_dst == 0
      then (resid, m)
      else if phys_src == 0
      then (resid, m)
      else rest

  -- FltWriteWiredSrcToWiredDst. Each round copies at least one byte, so `len` rounds are
  -- enough; the result is an unsigned int.
  unfoldable pub flt_write_wired_src_to_wired_dst : ℕ → ℕ → ℕ → M → ℕ × M
  flt_write_wired_src_to_wired_dst src dst len m =
      let (resid, m') = write_loop len src dst len m in ((len - resid) % 2 ^ 32, m')
