-- ===== src/Kvm/Cpuid.antt =====
-- crates/kvm/src/cpuid.rs: the features that the guest is shown.
pub mod Features
use litedroid.Base.{
  ℕ, ◌/◌, ◌%◌, ◌*◌, ◌^◌, bit_or, bit_and, Bool, true, false, ◌&&◌, List, [], ◌∷◌, map, take, drop,
  ◌==◌, if◌then◌else◌, from_le_bytes, codes, ◌++◌,
}

-- The fields of `kvm_cpuid_entry2` that the code reads or writes.
pub record CpuidEntry : Type 0 where
  pub function : ℕ
  pub eax : ℕ
  pub ebx : ℕ
  pub ecx : ℕ
  pub edx : ℕ

abbrev pub kvm_cpuid_signature : List ℕ
kvm_cpuid_signature = codes "KVMKVMKVM" ++ (0 ∷ 0 ∷ 0 ∷ [])

unfoldable pub filter_entry : CpuidEntry → CpuidEntry
filter_entry entry =
    if entry.function == 0x1
    then record entry {
      ecx = bit_or (bit_or entry.ecx (2 ^ 31)) (2 ^ 21);
      edx = bit_or entry.edx (2 ^ 9);
    }
    else if entry.function == 0x4000_0000
    then record entry {
      eax = 0x4000_0001;
      ebx = from_le_bytes (take 4 kvm_cpuid_signature);
      ecx = from_le_bytes (take 4 (drop 4 kvm_cpuid_signature));
      edx = from_le_bytes (drop 8 kvm_cpuid_signature);
    }
    else if entry.function == 0x4000_0001
    then record entry { eax = 0; ebx = 0; ecx = 0; edx = 0 }
    else entry

unfoldable pub filter_for_android : List CpuidEntry → List CpuidEntry
unfolding filter_entry
filter_for_android cpuid = map filter_entry cpuid

unfoldable pub supports_avx : List CpuidEntry → Bool
supports_avx [] = false
supports_avx (entry ∷ rest) =
    let further = supports_avx rest in
    if entry.function == 0x1
    then bit_and (entry.ecx / 2 ^ 27) 1 == 1 && bit_and (entry.ecx / 2 ^ 27) 3 == 3
    else further

unfoldable pub supports_sse42 : List CpuidEntry → Bool
supports_sse42 [] = false
supports_sse42 (entry ∷ rest) =
    let further = supports_sse42 rest in
    if entry.function == 0x1 then bit_and (entry.ecx / 2 ^ 20) 1 == 1 else further
