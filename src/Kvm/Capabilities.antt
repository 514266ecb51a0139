-- ===== src/Kvm/Capabilities.antt =====
-- crates/kvm/src/lib.rs: `KvmCapabilities`. A HashMap gives its entries in an order of its own, which
-- is the parameter `order`.
pub mod Order
pub mod Table
use Prim.Native.String
use Prim.Native.Char.{code}
use litedroid.Base.{
  String, ◌<>◌, ◌=t◌, ◌==◌, ltb, Bool, true, false, if◌then◌else◌, List, [], ◌∷◌, ◌++◌,
}

-- The capabilities of `kvm_ioctls::Cap` that are probed.
pub data Cap : Type 0 where
  irqchip hlt mmu_shadow_cache_control user_memory set_tss_addr vapic ext_cpuid clocksource nr_vcpus
        nr_memslots pit pv_mmu mp_state coalesced_mmio sync_mmu iommu user_nmi irq_routing irqfd
        pit_state2 ioeventfd set_identity_map_addr adjust_clock internal_error_data hyperv
        enable_cap sync_regs kvmclock_ctrl signal_msi ioapic_polarity_ignored enable_cap_vm
        ioeventfd_no_length vm_attributes arm_psci ext_emul_cpuid check_extension_vm s390user_sigp
        msi_devid ppc_get_pvinfo ppc_booke_watchdog ppc_epr coalesced_pio tsc_deadline_timer
        async_pf pci23 readonly_mem irqfd_resample s390gmap ppc_get_smmu_info ppc_rtas
        get_msr_features max_vcpus max_vcpu_id device_ctrl immediate_exit arm_pmu_v3 :
      Cap

unfoldable pub probes : List (String × Cap)
probes =
    ("IRQCHIP", irqchip)
    ∷ ("HLT", hlt)
    ∷ ("MMU_SHADOW_CACHE_CONTROL", mmu_shadow_cache_control)
    ∷ ("USER_MEMORY", user_memory)
    ∷ ("SET_TSS_ADDR", set_tss_addr)
    ∷ ("VAPIC", vapic)
    ∷ ("EXT_CPUID", ext_cpuid)
    ∷ ("CLOCKSOURCE", clocksource)
    ∷ ("NR_VCPUS", nr_vcpus)
    ∷ ("NR_MEMSLOTS", nr_memslots)
    ∷ ("PIT", pit)
    ∷ ("PV_MMU", pv_mmu)
    ∷ ("MP_STATE", mp_state)
    ∷ ("COALESCED_MMIO", coalesced_mmio)
    ∷ ("SYNC_MMU", sync_mmu)
    ∷ ("IOMMU", iommu)
    ∷ ("USER_NMI", user_nmi)
    ∷ ("IRQ_ROUTING", irq_routing)
    ∷ ("IRQFD", irqfd)
    ∷ ("PIT_STATE2", pit_state2)
    ∷ ("IOEVENTFD", ioeventfd)
    ∷ ("SET_IDENTITY_MAP_ADDR", set_identity_map_addr)
    ∷ ("ADJUST_CLOCK", adjust_clock)
    ∷ ("INTERNAL_ERROR_DATA", internal_error_data)
    ∷ ("HYPERV", hyperv)
    ∷ ("ENABLE_CAP", enable_cap)
    ∷ ("SYNC_REGS", sync_regs)
    ∷ ("KVMCLOCK_CTRL", kvmclock_ctrl)
    ∷ ("SIGNAL_MSI", signal_msi)
    ∷ ("IOAPIC_POLARITY_IGNORED", ioapic_polarity_ignored)
    ∷ ("ENABLE_CAP_VM", enable_cap_vm)
    ∷ ("IOEVENTFD_NO_LENGTH", ioeventfd_no_length)
    ∷ ("VM_ATTRIBUTES", vm_attributes)
    ∷ ("ARM_PSCI", arm_psci)
    ∷ ("EXT_EMUL_CPUID", ext_emul_cpuid)
    ∷ ("CHECK_EXTENSION_VM", check_extension_vm)
    ∷ ("S390_USER_SIGP", s390user_sigp)
    ∷ ("MSI_DEVID", msi_devid)
    ∷ ("PPC_GET_PVINFO", ppc_get_pvinfo)
    ∷ ("PPC_BOOKE_WATCHDOG", ppc_booke_watchdog)
    ∷ ("PPC_EPR", ppc_epr)
    ∷ ("COALESCED_PIO", coalesced_pio)
    ∷ ("TSC_DEADLINE_TIMER", tsc_deadline_timer)
    ∷ ("ASYNC_PF", async_pf)
    ∷ ("PCI_2_3", pci23)
    ∷ ("READONLY_MEM", readonly_mem)
    ∷ ("IRQFD_RESAMPLE", irqfd_resample)
    ∷ ("S390_GMAP", s390gmap)
    ∷ ("PPC_GET_SMMU_INFO", ppc_get_smmu_info)
    ∷ ("PPC_RTAS", ppc_rtas)
    ∷ ("GET_MSR_FEATURES", get_msr_features)
    ∷ ("MAX_VCPUS", max_vcpus)
    ∷ ("MAX_VCPU_ID", max_vcpu_id)
    ∷ ("DEVICE_CTRL", device_ctrl)
    ∷ ("IMMEDIATE_EXIT", immediate_exit)
    ∷ ("ARM_PMU_V3", arm_pmu_v3)
    ∷ []

-- The entries of the map.
pub record KvmCapabilities : Type 0 where
  pub flags : List (String × Bool)

-- `check_extension` for each probe.
unfoldable pub probe : (check : Cap → Bool) → List (String × Cap) → List (String × Bool)
probe check [] = []
probe check ((name, cap) ∷ rest) = (name, check cap) ∷ probe check rest

unfoldable pub new :
    (order : List (String × Bool) → List (String × Bool)) (check : Cap → Bool) → KvmCapabilities
unfolding probe probes
new order check = record { flags = order (probe check probes) }

-- `flags.get(name)`, with false for a name that is not there.
unfoldable pub find_flag : String → List (String × Bool) → Bool
find_flag name [] = false
find_flag name ((n, available) ∷ rest) =
    let later = find_flag name rest in if name =t n then available else later

unfoldable pub is_available : KvmCapabilities → String → Bool
unfolding find_flag
is_available c name = find_flag name c.flags

-- The names whose flag is `wanted`, in the order of the map.
unfoldable pub gather : (wanted : Bool) → List (String × Bool) → List String
gather wanted [] = []
gather wanted ((name, true) ∷ rest) =
    if wanted then name ∷ gather wanted rest else gather wanted rest
gather wanted ((name, false) ∷ rest) =
    if wanted then gather wanted rest else name ∷ gather wanted rest

-- The order of texts, by their first difference.
unfoldable pub str_le : String → String → Bool
str_le String.[] t = true
str_le (String.◌∷◌ c s) String.[] = false
str_le (String.◌∷◌ c s) (String.◌∷◌ d t) =
    let rest = str_le s t in if code c == code d then rest else ltb (code c) (code d)

unfoldable pub insert : String → List String → List String
unfolding str_le
insert s [] = s ∷ []
insert s (t ∷ l) = let rest = insert s l in if str_le s t then s ∷ t ∷ l else t ∷ rest

-- `sort`.
unfoldable pub sort : List String → List String
unfolding insert
sort [] = []
sort (s ∷ l) = insert s (sort l)

-- `join`.
unfoldable pub join : (separator : String) → List String → String
join separator [] = ""
join separator (s ∷ []) = s
join separator (s ∷ t ∷ l) = s <> separator <> join separator (t ∷ l)

-- A line of names, if there are any.
unfoldable pub line : (mark : String) → List String → List String
unfolding join
line mark [] = []
line mark (s ∷ l) = ("  " <> mark <> " " <> join ", " (s ∷ l)) ∷ []

unfoldable pub summary : KvmCapabilities → String
unfolding gather sort line join
summary c = join "\n" (
    "KVM capabilities:" ∷ line "✓" (sort (gather true c.flags))
    ++ line "✗" (sort (gather false c.flags)))
