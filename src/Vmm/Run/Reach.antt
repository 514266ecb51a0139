-- ===== src/Vmm/Run/Reach.antt =====
-- The run loop over many turns, with `stop` called by another thread at any time.
use litedroid.Base.{
  ℕ, zero, suc, ◌≡◌, ◌≢◌, ◌∙◌, refl, true, false, Outcome, ok, err, panic, out_of_fuel, inl, inr,
  ◌⊎◌, String,
}
use litedroid.Core.Error.{LiteDroidError, Result}
use litedroid.Kvm.Vcpu.{VcpuExit, VcpuFd, run_with_mmio}
use litedroid.Storage.Image.{FileOps}
use litedroid.Vmm.Block.Region.{ReadsBytes}
use litedroid.Vmm.Run.{Machine, turn, stop, entered, ends_with}
use litedroid.Vmm.Run.Sound.{IsSound, IsVcpu, turn-Turns}

module _ {F C S : Type 0} (ops : FileOps F) (fd : VcpuFd C S) (index : ℕ) where
  -- The loop is between two turns, `n` turns after it was at `s`.
  pub data Turned (s : Machine F C) : ℕ → Machine F C → Type 0 where
    here : Turned s zero s
    turned :
        {n : ℕ} {m : Machine F C}
        → Turned s n m
        → m.running ≡ true
        → (turn ops fd index m).0 ≡ ok tt
        → Turned s (suc n) (turn ops fd index m).1
    stopped : {n : ℕ} {m : Machine F C} → Turned s n m → Turned s n (stop ops fd index m)

  -- The state is sound, and the memory and the disk have the sizes that they had at `s`.
  pub record IsKept (s m : Machine F C) : Type 0 where
    pub sound : IsSound m
    pub extent : m.guest.memory.size ≡ s.guest.memory.size
    pub capacity : m.guest.device.disk.size ≡ s.guest.device.disk.size

  module _ (bytes_read : ReadsBytes ops) (vcpu : IsVcpu fd) where
    Turned-IsKept :
        {s : Machine F C} {n : ℕ} {m : Machine F C} → IsSound s → Turned s n m → IsKept s m
    unfolding stop
    Turned-IsKept h here = record { sound = h; extent = refl; capacity = refl }
    Turned-IsKept h (turned {m = m} t r e) =
        let k = Turned-IsKept h t in
        let (a, region) = turn-Turns ops fd index bytes_read vcpu m k.sound in
        record {
          sound = record { device = a.valid; memory = region };
          extent = a.extent ∙ k.extent;
          capacity = a.capacity ∙ k.capacity;
        }
    Turned-IsKept h (stopped t) =
        let k = Turned-IsKept h t in
        record {
          sound = record { device = k.sound.device; memory = k.sound.memory };
          extent = k.extent;
          capacity = k.capacity;
        }

    -- From registers in their ranges and a mapped region of bytes, after any number of turns and
    -- stops, whatever the guest does to its RAM and to the device, that is so, the memory and the
    -- disk have their sizes, and the next turn ends without an error; it panics only if the guest
    -- has set the queue size to 0. The vCPU accesses at most eight bytes of memory-mapped I/O at a
    -- time and writes bytes to its RAM, and `pread` gives bytes.
    pub run_stays_sound :
        {s : Machine F C} {n : ℕ} {m : Machine F C}
        → IsSound s
        → Turned s n m
        → IsKept s m
          × ((turn ops fd index m).0 ≢ out_of_fuel)
          × ((e : LiteDroidError) → (turn ops fd index m).0 ≢ err e)
          × (m.guest.device.queue_num ≢ 0 → (turn ops fd index m).0 ≢ panic)
    run_stays_sound {m} h t =
        let k = Turned-IsKept h t in
        let (a, region) = turn-Turns ops fd index bytes_read vcpu m k.sound in
        (k, a.finished, a.no_error, a.calm)

  -- An exit after which the loop ends.
  abbrev pub IsTerminal : Outcome String VcpuExit → Type 0
  IsTerminal r =
      (r ≡ ok VcpuExit.hlt)
      ⊎ (r ≡ ok VcpuExit.shutdown)
      ⊎ (r ≡ ok VcpuExit.exception)
      ⊎ (r ≡ ok VcpuExit.internal_error)
      ⊎ ((reason : ℕ) × (cpu : ℕ) × (r ≡ ok (VcpuExit.fail_entry reason cpu)))
      ⊎ ((e : String) × (r ≡ err e))

  -- The loop has ended, with the guest as its last run left it.
  abbrev pub Halts : Machine F C → Result (Unit {0}) × Machine F C → Type 0
  Halts m (r, m') = (r ≡ ok tt) × (m'.running ≡ false) × (m'.guest ≡ (entered ops fd index m).guest)

  pub turn-Halts :
      (m : Machine F C) → IsTerminal (ends_with ops fd index m) → Halts m (turn ops fd index m)
  unfolding turn run_with_mmio
  turn-Halts m (inl e) = rw e (refl, refl, refl)
  turn-Halts m (inr (inl e)) = rw e (refl, refl, refl)
  turn-Halts m (inr (inr (inl e))) = rw e (refl, refl, refl)
  turn-Halts m (inr (inr (inr (inl e)))) = rw e (refl, refl, refl)
  turn-Halts m (inr (inr (inr (inr (inl (reason, cpu, e)))))) = rw e (refl, refl, refl)
  turn-Halts m (inr (inr (inr (inr (inr (x, e)))))) = rw e (refl, refl, refl)
