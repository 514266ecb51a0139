-- ===== src/Vmm/Create.antt =====
-- crates/vmm/src/lib.rs: `VirtualMachine::new`. The probes of capabilities are left out. `/dev/kvm`, a machine and a vCPU are handles; the
-- calls on them, mmap and the disk's file are parameters.
use litedroid.Base.{
  ℕ, zero, suc, Bool, false, ◌≤◌, ◌+◌, ◌*◌, ◌≡◌, refl, ap, ◌∙◌, String, ◌<>◌, ok, Option, List, [],
  ◌∷◌, length, wrap64, arith,
}
use native.Mathlib.Nat.{mod-eq_of_lt}
use litedroid.Action.{Action, pure, lift, map_err, ◌>>=◌, ◌>>◌}
use litedroid.Action.Rules.{Ends, Ends-bind, Ends-known, Ends-test, Ends-pure}
use litedroid.Core.Device.{DeviceConfig, validate, IsValid, validate-IsValid}
use litedroid.Core.Error.{LiteDroidError, vcpu_run_failed}
use litedroid.Memory.{GuestMemory}
use litedroid.Storage.Image.{FileOps}
use litedroid.Kvm.Cpuid.{CpuidEntry, filter_for_android}
use litedroid.Kvm.Hypervisor.{
  KvmError, KvmFd, VmFd, open_error, create_vm, get_supported_cpuid, create_vcpu, create_irq_chip,
  create_pit, set_tss_addr, set_identity_map_addr, set_user_memory_region,
}
use litedroid.Memory
use litedroid.Vmm.Block.{VirtioBlock}
use litedroid.Vmm.Block

pub record VirtualMachine (F : Type 0) : Type 0 where
  pub vm : ℕ
  pub vcpus : List ℕ
  pub guest_memory : GuestMemory
  pub config : DeviceConfig
  pub kernel_is_bzimage : Bool
  pub bzimage_header : List ℕ
  pub initramfs_size : ℕ
  pub block_device : VirtioBlock F
  pub running : Bool

-- The calls that making a machine needs.
pub record Kvm (W : Type 0) : Type 0 where
  pub open_kvm : Action W KvmError (Unit {0})
  pub kvm : KvmFd W (List CpuidEntry)
  pub vm : ℕ → VmFd W
  pub set_cpuid : (vcpu : ℕ) → List CpuidEntry → Action W String (Unit {0})
  pub mmap : ℕ → Option ℕ

module _ {W F : Type 0} (k : Kvm W) (ops : FileOps F) where
  unfoldable pub set_cpuid : (index vcpu : ℕ) → List CpuidEntry → Action W LiteDroidError (Unit {0})
  unfolding map_err
  set_cpuid index vcpu cpuid =
      map_err (λ e. vcpu_run_failed index ("SET_CPUID failed: " <> e)) (k.set_cpuid vcpu cpuid)

  -- The vCPUs `i` to `i + n - 1`.
  unfoldable pub create_vcpus :
      (vm : ℕ) → List CpuidEntry → (n i : ℕ) → Action W LiteDroidError (List ℕ)
  unfolding create_vcpu set_cpuid ◌>>=◌
  create_vcpus vm cpuid zero i = pure []
  create_vcpus vm cpuid (suc n) i = do
    vcpu ← create_vcpu (k.vm vm) i
    set_cpuid i vcpu cpuid
    vcpus ← create_vcpus vm cpuid n (i + 1)
    pure (vcpu ∷ vcpus)

  -- A machine with its interrupt controller, timer and fixed pages.
  unfoldable pub open_machine : Action W LiteDroidError ℕ
  unfolding create_vm create_irq_chip create_pit set_tss_addr set_identity_map_addr open_error
      map_err ◌>>=◌
  open_machine = do
    map_err open_error k.open_kvm
    vm ← create_vm k.kvm
    create_irq_chip (k.vm vm)
    create_pit (k.vm vm)
    set_tss_addr (k.vm vm) 0xfffb_d000
    set_identity_map_addr (k.vm vm) 0xfffb_c000
    pure vm

  unfoldable pub assemble :
      DeviceConfig → (vm : ℕ) → GuestMemory → Action W LiteDroidError (VirtualMachine F)
  assemble config vm guest_memory = do
    cpuid ← get_supported_cpuid k.kvm
    vcpus ← create_vcpus vm (filter_for_android cpuid) config.vcpu_count 0
    block_device ← lift (Block.new ops config.system_image_path)
    pure (record {
      vm = vm;
      vcpus = vcpus;
      guest_memory = guest_memory;
      config = config;
      kernel_is_bzimage = false;
      bzimage_header = [];
      initramfs_size = 0;
      block_device = block_device;
      running = false;
    })

  unfoldable pub new : DeviceConfig → Action W LiteDroidError (VirtualMachine F)
  unfolding open_machine assemble set_user_memory_region validate Memory.new ◌>>=◌
  new config = do
    lift (validate config)
    vm ← open_machine
    let mem_size = wrap64 (config.ram_mb * 1024 * 1024)
    guest_memory ← lift (Memory.new k.mmap mem_size)
    set_user_memory_region (k.vm vm) 0 0 mem_size guest_memory.base
    assemble config vm guest_memory

  -- What `VirtualMachine::new` builds for a configuration.
  pub record IsBuilt (config : DeviceConfig) (machine : VirtualMachine F) : Type 0 where
    pub valid : IsValid config
    pub vcpu_count : length machine.vcpus ≡ config.vcpu_count
    pub ram : machine.guest_memory.size ≡ config.ram_mb * 1048576

  create_vcpus-Ends :
      (vm : ℕ) (cpuid : List CpuidEntry) (n i : ℕ)
      → Ends (λ vcpus w. length vcpus ≡ n) (create_vcpus vm cpuid n i)
  unfolding create_vcpus
  create_vcpus-Ends vm cpuid zero i = Ends-pure [] (λ s. refl)
  create_vcpus-Ends vm cpuid (suc n) i =
      let rest = create_vcpus-Ends vm cpuid n (i + 1) in
      let longer : (vcpu : ℕ) (vcpus : List ℕ)
          → length vcpus ≡ n
          → W
          → length (vcpu ∷ vcpus) ≡ suc n =
        λ vcpu vcpus e s. ap suc e in
      search (Ends-bind, Ends-known, Ends-pure, rest, longer) depth 12

  sized : (n : ℕ) (m : GuestMemory) → Memory.new k.mmap n ≡ ok m → m.size ≡ n
  unfolding Memory.new
  sized n m e = ground arith

  -- 8192 MB are far from 2 ^ 64 bytes.
  mebibytes : (n : ℕ) → n ≤ 8192 → wrap64 (n * 1024 * 1024) ≡ n * 1048576
  mebibytes n h = mod-eq_of_lt (omega arith) ∙ omega arith

  built :
      (config : DeviceConfig) (u : Unit {0})
      → validate config ≡ ok u
      → (memory : GuestMemory)
      → Memory.new k.mmap (wrap64 (config.ram_mb * 1024 * 1024)) ≡ ok memory
      → (vcpus : List ℕ) → length vcpus ≡ config.vcpu_count
      → (vm : ℕ) (disk : VirtioBlock F) → W
      → IsBuilt config (record {
        vm = vm;
        vcpus = vcpus;
        guest_memory = memory;
        config = config;
        kernel_is_bzimage = false;
        bzimage_header = [];
        initramfs_size = 0;
        block_device = disk;
        running = false;
      })
  built config u accepted memory mapped vcpus count vm disk w =
      let valid = (validate-IsValid config).0 accepted in
      record {
        valid = valid;
        vcpu_count = count;
        ram = sized _ memory mapped ∙ mebibytes config.ram_mb valid.ram_high;
      }

  assemble-Ends :
      (config : DeviceConfig) (u : Unit {0})
      → validate config ≡ ok u
      → (memory : GuestMemory)
      → Memory.new k.mmap (wrap64 (config.ram_mb * 1024 * 1024)) ≡ ok memory
      → (vm : ℕ) → Ends (λ machine w. IsBuilt config machine) (assemble config vm memory)
  unfolding assemble
  assemble-Ends config u accepted memory mapped vm =
      let made : (vcpus : List ℕ)
          → length vcpus ≡ config.vcpu_count
          → (disk : VirtioBlock F)
          → Ends (λ machine w. IsBuilt config machine)
              (pure {S = W} {E = LiteDroidError} (record {
                vm = vm;
                vcpus = vcpus;
                guest_memory = memory;
                config = config;
                kernel_is_bzimage = false;
                bzimage_header = [];
                initramfs_size = 0;
                block_device = disk;
                running = false;
              })) =
        λ vcpus count disk.
          Ends-pure _ (λ w. built config u accepted memory mapped vcpus count vm disk w) in
      let counted : (cpuid : List CpuidEntry)
          → Ends (λ vcpus w. length vcpus ≡ config.vcpu_count)
              (create_vcpus vm cpuid config.vcpu_count 0) =
        λ cpuid. create_vcpus-Ends vm cpuid config.vcpu_count 0 in
      let after : (vcpus : List ℕ)
          → length vcpus ≡ config.vcpu_count
          → Ends (λ machine w. IsBuilt config machine)
              (lift {S = W} (Block.new ops config.system_image_path) >>= λ disk. pure (record {
                vm = vm;
                vcpus = vcpus;
                guest_memory = memory;
                config = config;
                kernel_is_bzimage = false;
                bzimage_header = [];
                initramfs_size = 0;
                block_device = disk;
                running = false;
              })) =
        λ vcpus count. Ends-bind _ _ (λ disk. made vcpus count disk) in
      Ends-bind (get_supported_cpuid k.kvm) _ (λ cpuid.
        Ends-known (create_vcpus vm (filter_for_android cpuid) config.vcpu_count 0) _
          (counted (filter_for_android cpuid)) (λ vcpus count. after vcpus count))

  new-Ends : (config : DeviceConfig) → Ends (λ machine w. IsBuilt config machine) (new config)
  unfolding new
  new-Ends config = search (Ends-test, Ends-bind, assemble-Ends) depth 12

  -- A machine that is made was made for a valid configuration, and has a vCPU for each that the
  -- configuration asks for and all of its memory, in bytes.
  pub new-IsBuilt :
      (config : DeviceConfig) (w w' : W) (machine : VirtualMachine F)
      → new config w ≡ (ok machine, w')
      → IsBuilt config machine
  new-IsBuilt config = (new-Ends config).at
