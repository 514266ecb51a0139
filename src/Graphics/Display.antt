-- ===== src/Graphics/Display.antt =====
-- crates/graphics/src/lib.rs: display events and `NullDisplay`.
use litedroid.Base.{ℕ, Bool, true, false, List, [], if◌then◌else◌, ok}
use litedroid.Core.Error.{Result}
use litedroid.Graphics.Framebuffer.{Framebuffer}

pub data DisplayEvent : Type 0 where
  expose : DisplayEvent
  closed : DisplayEvent
  resize : (w h : ℕ) → DisplayEvent
  empty : DisplayEvent

pub record NullDisplay : Type 0 where
  pub updated_once : Bool

unfoldable pub new : NullDisplay
new = record { updated_once = false }

unfoldable pub update : NullDisplay → Framebuffer → Result NullDisplay
update d fb = ok (if d.updated_once then d else record { updated_once = true })

unfoldable pub process_events : NullDisplay → List DisplayEvent
process_events d = []
