-- ===== src/Host/Processes.antt =====
-- What the operating system documents of processes: a `wait` that succeeds returns when the child
-- has ended, an exit status is given only of a child that has ended, `spawn` starts one child, and
-- no other call starts an emulator.
use litedroid.Base.{ℕ, String, Bool, true, false, ok, ◌≡◌, ◌⊎◌, List, [], ◌∷◌, ◌=t◌}
use litedroid.Action.{Action}
use litedroid.Action.Rules.{Keeps}
use litedroid.Host.{Host, Command, exited}

-- The emulator's command line begins with `-avd`; the tools' do not.
abbrev pub begins_avd : List String → Bool
begins_avd [] = false
begins_avd (a ∷ _) = a =t "-avd"

module _ {W : Type 0} (live : W → ℕ → Bool) where
  -- No emulator has come to life between two states.
  abbrev pub Shrinks : W → W → Type 0
  Shrinks w w' = (d : ℕ) → live w' d ≡ true → live w d ≡ true

  -- The call starts no emulator, after whatever was started before it.
  abbrev pub StartsNone : {E A : Type 0} → Action W E A → Type 0
  StartsNone m = (w : W) → Keeps (Shrinks w) m

-- `live w d`: the process `d` is an emulator that runs.
pub record IsProcesses {W : Type 0} (host : Host W) (live : W → ℕ → Bool) : Type 0 where
  pub create_dir_all_starts : (p : String) → StartsNone live (host.create_dir_all p)
  pub write_starts : (p : String) (bytes : List ℕ) → StartsNone live (host.write p bytes)
  pub read_starts : (p : String) → StartsNone live (host.read_to_string p)
  pub create_starts : (p : String) → StartsNone live (host.create p)
  pub clone_starts : (h : ℕ) → StartsNone live (host.try_clone h)
  pub output_starts : (p : String) (args : List String) → StartsNone live (host.output p args)
  pub write_all_starts : (c : ℕ) (bytes : List ℕ) → StartsNone live (host.write_all c bytes)
  pub wait_output_starts : (c : ℕ) → StartsNone live (host.wait_with_output c)
  pub wait_status_starts : (c : ℕ) → StartsNone live (host.wait_status c)
  pub status_starts : (c : Command) → begins_avd c.args ≡ false → StartsNone live (host.status c)
  pub copy_starts : (a b : String) → StartsNone live (host.copy a b)
  pub kill_starts : (c : ℕ) (w : W) → Shrinks live w (host.kill c w).1
  pub wait_ends :
      (c : ℕ) (w : W) (b : Bool)
      → (host.wait_status c w).0 ≡ ok b
      → live (host.wait_status c w).1 c ≡ false
  pub try_wait_starts : (c : ℕ) (w : W) → Shrinks live w (host.try_wait c w).1
  pub try_wait_ended :
      (c : ℕ) (w : W) (b : Bool)
      → (host.try_wait c w).0 ≡ exited b
      → live (host.try_wait c w).1 c ≡ false
  pub store_starts : (h : ℕ) (b : Bool) (w : W) → Shrinks live w (host.store h b w)
  pub spawn_tool : (c : Command) → begins_avd c.args ≡ false → StartsNone live (host.spawn c)
  pub spawn_one :
      (c : Command) (w : W) (d : ℕ)
      → live (host.spawn c w).1 d ≡ true
      → (live w d ≡ true) ⊎ ((host.spawn c w).0 ≡ ok d)

-- `wait` does not fail: the child is the caller's own, has not been waited for, and an interrupted
-- call is made again.
pub record IsWaitable {W : Type 0} (host : Host W) : Type 0 where
  pub wait_succeeds : (c : ℕ) (w : W) → (b : Bool) × ((host.wait_status c w).0 ≡ ok b)
