-- ===== src/Vmm/Run/Rounds.antt =====
-- crates/vmm/src/lib.rs: what becomes of each round of the loop `run`.
use litedroid.Base.{ℕ, zero, suc, ◌+◌, ◌≡◌, ◌≢◌, true, ok, out_of_fuel, ◌⊎◌}
use litedroid.Core.Error.{Result}
use litedroid.Kvm.Vcpu.{VcpuFd}
use litedroid.Storage.Image.{FileOps}
use litedroid.Vmm.Run.{Machine, turn, ends_with}
use litedroid.Vmm.Run.Reach.{IsTerminal, Halts}

module _ {F C S : Type 0} (ops : FileOps F) (fd : VcpuFd C S) (index : ℕ) where
  -- `n` turns that succeed lead from `m` to `t`, each begun while the flag is set.
  abbrev Chain : ℕ → Machine F C → Machine F C → Type 0
  Chain zero m t = m ≡ t
  Chain (suc n) m t =
      (m.running ≡ true) × ((turn ops fd index m).0 ≡ ok tt) × Chain n (turn ops fd index m).1 t

  -- All rounds went into turns that succeeded and left the flag set.
  abbrev pub IsSpent : ℕ → Machine F C → Result (Unit {0}) × Machine F C → Type 0
  IsSpent n m out = (t : Machine F C) × Chain n m t × (t.running ≡ true) × (out ≡ (out_of_fuel, t))

  -- After some such turns came one whose exit ends the loop, or one that failed.
  abbrev pub IsReturned : ℕ → Machine F C → Result (Unit {0}) × Machine F C → Type 0
  IsReturned n m out =
      (k j : ℕ) × (t : Machine F C) × (n ≡ k + suc j)
      × Chain k m t
      × (t.running ≡ true)
      × ((IsTerminal ops fd index (ends_with ops fd index t) × Halts ops fd index t out)
          ⊎ (((turn ops fd index t).0 ≢ ok tt) × (out ≡ turn ops fd index t)))
