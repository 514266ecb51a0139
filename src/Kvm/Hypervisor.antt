-- ===== src/Kvm/Hypervisor.antt =====
-- crates/kvm/src/lib.rs: `Hypervisor` and the creation of virtual machines and vCPUs. The calls of
-- kvm_ioctls on `/dev/kvm` and on a machine are the parameters `KvmFd` and `VmFd`.
use litedroid.Base.{
  ℕ, ◌≢◌, refl, String, ◌<>◌, show, show_hex, ◌||◌, ◌==◌, if◌then◌else◌, Outcome, ok, err, panic,
  out_of_fuel, Option, none, some, List, [], ◌∷◌,
}
use litedroid.Action.{Action, map_err}
use litedroid.Core.Error.{
  LiteDroidError, kvm_unavailable, kvm_ioctl, permission_denied, vm_creation_failed,
  vcpu_creation_failed,
}

-- `kvm_ioctls::Error`: its errno, and its text.
pub record KvmError : Type 0 where
  pub errno : ℕ
  pub text : String

abbrev enoent : ℕ
enoent = 2

abbrev enodev : ℕ
enodev = 19

abbrev eacces : ℕ
eacces = 13

-- The error of `Hypervisor::new` when `/dev/kvm` cannot be opened.
unfoldable pub open_error : KvmError → LiteDroidError
open_error e =
    if e.errno == enoent || e.errno == enodev
    then kvm_unavailable "/dev/kvm not found — is the KVM kernel module loaded?"
    else if e.errno == eacces
    then permission_denied
        "Permission denied opening /dev/kvm — try adding the user to the 'kvm' group."
    else kvm_unavailable ("failed to open /dev/kvm: " <> e.text)

-- `kvm_ioctls::Kvm`; `W` is the state of the host, and `T` the table of CPUID entries.
pub record KvmFd (W T : Type 0) : Type 0 where
  pub create_vm : Action W String ℕ
  pub get_supported_cpuid : (num_entries : ℕ) → Action W String T

module _ {W T : Type 0} (kvm : KvmFd W T) where
  unfoldable pub create_vm : Action W LiteDroidError ℕ
  unfolding map_err
  create_vm = map_err (λ e. vm_creation_failed ("kvm create_vm failed: " <> e)) kvm.create_vm

  -- `last_error.expect(…)`: without an error it panics.
  unfoldable pub give_up : Option String → Outcome LiteDroidError T
  give_up none = panic
  give_up (some e) = err (kvm_ioctl ("KVM_GET_SUPPORTED_CPUID failed after retries: " <> e))

  -- A size was tried; `rest` tries the sizes that are left, with the last error.
  unfoldable pub after_size :
      (rest : Option String → Action W LiteDroidError T)
      → Outcome String T
      → Action W LiteDroidError T
  after_size rest (ok cpuid) w = (ok cpuid, w)
  after_size rest (err e) w = rest (some e) w
  after_size rest panic w = (panic, w)
  after_size rest out_of_fuel w = (out_of_fuel, w)

  unfoldable pub retry : List ℕ → Option String → Action W LiteDroidError T
  unfolding after_size give_up
  retry [] last_error w = (give_up last_error, w)
  retry (num_entries ∷ sizes) last_error w =
      let (r, w) = kvm.get_supported_cpuid num_entries w in after_size (retry sizes) r w

  unfoldable pub get_supported_cpuid : Action W LiteDroidError T
  unfolding retry
  get_supported_cpuid = retry (256 ∷ 128 ∷ 64 ∷ 32 ∷ []) none

  -- A call that gives a table or an error ends the retries with the outcome of one of the calls:
  -- the `expect` on the last error never panics.
  module _ (total : (n : ℕ) (w : W) → (kvm.get_supported_cpuid n w).0 ≢ panic) where
    after_size-total :
        (rest : Option String → Action W LiteDroidError T) (r : Outcome String T)
        → r ≢ panic
        → ((e : String) (w : W) → (rest (some e) w).0 ≢ panic)
        → (w : W) → (after_size rest r w).0 ≢ panic
    unfolding after_size
    after_size-total rest (ok t) h g w = λ x. cc
    after_size-total rest (err e) h g w = g e w
    after_size-total rest panic h g w = λ x. h refl
    after_size-total rest out_of_fuel h g w = λ x. cc

    retry-total : (sizes : List ℕ) (e : String) (w : W) → (retry sizes (some e) w).0 ≢ panic
    unfolding retry give_up
    retry-total [] e w = λ x. cc
    retry-total (n ∷ sizes) e w =
        after_size-total (retry sizes) _ (total n w) (retry-total sizes)
          (kvm.get_supported_cpuid n w).1

    pub get_supported_cpuid-total : (w : W) → (get_supported_cpuid w).0 ≢ panic
    unfolding get_supported_cpuid retry
    get_supported_cpuid-total w =
        after_size-total (retry (128 ∷ 64 ∷ 32 ∷ [])) _ (total 256 w)
          (retry-total (128 ∷ 64 ∷ 32 ∷ [])) (kvm.get_supported_cpuid 256 w).1

-- `kvm_userspace_memory_region`.
pub record MemoryRegion : Type 0 where
  pub slot : ℕ
  pub flags : ℕ
  pub guest_phys_addr : ℕ
  pub memory_size : ℕ
  pub userspace_addr : ℕ

-- `kvm_ioctls::VmFd`; `create_pit2` takes the configuration that is all zero.
pub record VmFd (W : Type 0) : Type 0 where
  pub create_vcpu : (index : ℕ) → Action W String ℕ
  pub create_irq_chip : Action W String (Unit {0})
  pub create_pit2 : Action W String (Unit {0})
  pub set_tss_address : ℕ → Action W String (Unit {0})
  pub set_identity_map_address : ℕ → Action W String (Unit {0})
  pub set_user_memory_region : MemoryRegion → Action W String (Unit {0})

module _ {W : Type 0} (vm : VmFd W) where
  abbrev ioctl_failed : String → String → LiteDroidError
  ioctl_failed call e = kvm_ioctl (call <> " failed: " <> e)

  unfoldable pub create_vcpu : ℕ → Action W LiteDroidError ℕ
  unfolding map_err
  create_vcpu index =
      map_err
        (λ e. vcpu_creation_failed index ("kvm create_vcpu(" <> show index <> ") failed: " <> e))
        (vm.create_vcpu index)

  unfoldable pub create_irq_chip : Action W LiteDroidError (Unit {0})
  unfolding map_err
  create_irq_chip = map_err (ioctl_failed "KVM_CREATE_IRQCHIP") vm.create_irq_chip

  unfoldable pub create_pit : Action W LiteDroidError (Unit {0})
  unfolding map_err
  create_pit = map_err (ioctl_failed "KVM_CREATE_PIT2") vm.create_pit2

  unfoldable pub set_tss_addr : ℕ → Action W LiteDroidError (Unit {0})
  unfolding map_err
  set_tss_addr addr =
      map_err (ioctl_failed ("KVM_SET_TSS_ADDR(" <> show_hex addr <> ")")) (vm.set_tss_address addr)

  unfoldable pub set_identity_map_addr : ℕ → Action W LiteDroidError (Unit {0})
  unfolding map_err
  set_identity_map_addr addr =
      map_err (ioctl_failed ("KVM_SET_IDENTITY_MAP_ADDR(" <> show_hex addr <> ")"))
        (vm.set_identity_map_address addr)

  unfoldable pub set_user_memory_region :
      (slot guest_addr memory_size userspace_addr : ℕ) → Action W LiteDroidError (Unit {0})
  unfolding map_err
  set_user_memory_region slot guest_addr memory_size userspace_addr =
      map_err
        (ioctl_failed (
          "KVM_SET_USER_MEMORY_REGION(slot="
          <> show slot
          <> ", guest="
          <> show_hex guest_addr
          <> ", size="
          <> show_hex memory_size
          <> ")"))
        (vm.set_user_memory_region (record {
          slot = slot;
          flags = 0;
          guest_phys_addr = guest_addr;
          memory_size = memory_size;
          userspace_addr = userspace_addr;
        }))
