-- ===== src/Vmm/Run/Returns.antt =====
-- What an exit of the vCPU can reach.
use litedroid.Base.{ℕ, ◌-◌, ◌≡◌, true, List, Outcome, ok, from_le_bytes, String}
use litedroid.Core.Constants.{virtio_mmio_start}
use litedroid.Kvm.Vcpu.{VcpuExit, VcpuFd}
use litedroid.Storage.Image.{FileOps}
use litedroid.Vmm.Block.{Guest, write}
use litedroid.Vmm.Run.{in_window}

module _ {F C S : Type 0} (ops : FileOps F) (fd : VcpuFd C S) (index : ℕ) where
  -- The exit was a write of `bytes` inside the device's window, and it went to the register there.
  abbrev pub Writes : Outcome String VcpuExit → Guest F → Guest F → Type 0
  Writes r g g' =
      (addr : ℕ) × (bytes : List ℕ) × (r ≡ ok (VcpuExit.mmio_write addr bytes))
      × (in_window addr ≡ true)
      × (g' ≡ (write ops (addr - virtio_mmio_start) (from_le_bytes bytes) g).1)
