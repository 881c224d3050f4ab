-- ===== src/FakeFsd/FunctionAt.antt =====
-- DdIsFunctionAtKernelAddress of FsdFilter/FltFakeFSD.cpp, over the disassembler.
use mac_osx_file_system_filt.Base.{
  ℕ, ◌+◌, ◌-◌, ◌%◌, ◌^◌, ◌≤◌, ◌<◌, ◌≡◌, ◌⊎◌, refl, ◌∙◌, sym, Bool, true, false, if◌then◌else◌, ◌==◌,
  not, ◌&&◌, Bool-cases, inl, inr, ltb, arith, eq_of_==, ne_of_==, Bool-clash,
}
use mac_osx_file_system_filt.FakeFsd.Layout.{Memory, trunc_page}

-- _DecodeResult of the disassembler.
pub data DecodeResult : Type 0 where
  decres_none decres_success decres_memory_err decres_input_err decres_filtered : DecodeResult

-- distorm_decompose64 on the bytes at an address, a number of them, for at most so many
-- instructions: the result, how many instructions it has filled, and their opcodes.
abbrev pub Disassembler : Type 0
Disassembler = ℕ → ℕ → ℕ → DecodeResult × ℕ × (ℕ → ℕ)

-- DECRES_SUCCESS != res && DECRES_MEMORYERR != res
abbrev pub is_undecoded : DecodeResult → Bool
is_undecoded decres_success = false
is_undecoded decres_memory_err = false
is_undecoded _ = true

-- DdIsFunctionAtKernelAddress
unfoldable pub dd_is_function_at_kernel_address : Memory → Disassembler → ℕ → Bool
dd_is_function_at_kernel_address k distorm_decompose64 address =
    if not (k.is_mapped address)
    then false
    else if not (trunc_page address == trunc_page ((address + 100) % 2 ^ 64))
        && not (k.is_mapped ((address + 100 - 1) % 2 ^ 64))
    then false
    else let (res, count, opcode) = distorm_decompose64 address 100 15 in
      if is_undecoded res
      then false
      else if ltb count 15
      then false
      else if not (opcode 0 == 0x2)
      then false
      else if not (opcode 1 == 0x2a)
      then false
      else true

-- A page is mapped as a whole.
abbrev pub IsPageWise : Memory → Type 0
IsPageWise k = (a b : ℕ) → trunc_page a ≡ trunc_page b → k.is_mapped a ≡ k.is_mapped b

module _ (k : Memory) (distorm_decompose64 : Disassembler) (address : ℕ)
    (is_function : dd_is_function_at_kernel_address k distorm_decompose64 address ≡ true) where
  start-mapped : k.is_mapped address ≡ true
  unfolding dd_is_function_at_kernel_address
  start-mapped = ground (arith, is_function)

  end-mapped :
      address + 100 < 2 ^ 64
      → (trunc_page address ≡ trunc_page (address + 100)) ⊎ (k.is_mapped (address + 99) ≡ true)
  unfolding dd_is_function_at_kernel_address
  end-mapped inside =
      let whole : (address + 100) % 2 ^ 64 ≡ address + 100 = omega arith in
      let last : (address + 100 - 1) % 2 ^ 64 ≡ address + 99 = omega arith in
      let decided =
        rw (dd_is_function_at_kernel_address, start-mapped, whole, last) at is_function in
      elim (Bool-cases (trunc_page address == trunc_page (address + 100))) [
        | inl same ↦ inl (eq_of_== _ _ same)
        | inr crosses ↦ elim (Bool-cases (k.is_mapped (address + 99))) [
          | inl mapped ↦ inr mapped
          | inr unmapped ↦ absurd (Bool-clash true refl (sym (rw (crosses, unmapped) at decided)))
        ]
      ]

  byte-mapped :
      IsPageWise k → address + 100 < 2 ^ 64 → (i : ℕ) → i < 100 → k.is_mapped (address + i) ≡ true
  byte-mapped pages inside i lt =
      elim (Bool-cases (trunc_page (address + i) == trunc_page address)) [
        | inl first ↦ pages (address + i) address (eq_of_== _ _ first) ∙ start-mapped
        | inr later ↦ elim (end-mapped inside) [
          | inl same ↦ absurd (ne_of_== _ _ later (omega (arith, same, lt)))
          | inr mapped ↦
              pages (address + i) (address + 99) (omega (arith, ne_of_== _ _ later, lt)) ∙ mapped
        ]
      ]

  instructions :
      let (res, count, opcode) = distorm_decompose64 address 100 15 in
      (is_undecoded res ≡ false) × (ltb count 15 ≡ false) × (opcode 0 ≡ 0x2) × (opcode 1 ≡ 0x2a)
  unfolding dd_is_function_at_kernel_address
  instructions = ground (arith, is_function)

  -- Where a page is mapped as a whole and the 100 bytes do not reach the end of the address space:
  -- if DdIsFunctionAtKernelAddress returns true, each of the 100 bytes from the address on, which
  -- the disassembler reads, is mapped, and the disassembler has found at least 15 instructions,
  -- the first a push and the second a mov.
  pub dd_is_function-mapped :
      IsPageWise k
      → address + 100 < 2 ^ 64
      → (i : ℕ) → i < 100
      → let (res, count, opcode) = distorm_decompose64 address 100 15 in
        (k.is_mapped (address + i) ≡ true) × (15 ≤ count) × (opcode 0 ≡ 0x2) × (opcode 1 ≡ 0x2a)
  dd_is_function-mapped pages inside i lt =
      let (decoded, many, push, mov) = instructions in
      (byte-mapped pages inside i lt, ground (arith, many), push, mov)
