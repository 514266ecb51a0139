-- ===== src/Kvm.antt =====
-- crates/kvm: the capabilities, the CPUID filter, the calls that make a machine, and the exits and registers of a vCPU.
pub mod Capabilities
pub mod Cpuid
pub mod Hypervisor
pub mod Vcpu
mod Tests
