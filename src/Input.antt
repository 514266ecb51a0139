-- ===== src/Input.antt =====
-- crates/input/src/lib.rs: the keycode table and the bounded queue of input events. The channel is
-- crossbeam's `bounded(1024)`, first in first out; `try_send` refuses when it is full.
pub mod Events
use litedroid.Base.{
  ℕ, ℤ, List, [], ◌∷◌, ◌++◌, Option, none, some, length, ltb, ◌==◌, if◌then◌else◌, ok, err,
}
use litedroid.Core.Error.{Result, input_error}
use litedroid.Core.Types.{
  InputEvent, MouseButton, AndroidButton, mouse_down, mouse_up, mouse_move, key_down, key_up,
  touch_start, touch_move, touch_end, android_button,
}

-- The table, as (x11_keycode, linux_evdev_keycode).
unfoldable pub keycode_map : List (ℕ × ℕ)
keycode_map =
    (9, 1)
    ∷ (10, 2)
    ∷ (11, 3)
    ∷ (12, 4)
    ∷ (13, 5)
    ∷ (14, 6)
    ∷ (15, 7)
    ∷ (16, 8)
    ∷ (17, 9)
    ∷ (18, 10)
    ∷ (19, 11)
    ∷ (24, 16)
    ∷ (25, 17)
    ∷ (26, 18)
    ∷ (27, 19)
    ∷ (28, 20)
    ∷ (29, 21)
    ∷ (30, 22)
    ∷ (31, 23)
    ∷ (32, 24)
    ∷ (33, 25)
    ∷ (38, 30)
    ∷ (39, 31)
    ∷ (40, 32)
    ∷ (41, 33)
    ∷ (42, 34)
    ∷ (43, 35)
    ∷ (44, 36)
    ∷ (45, 37)
    ∷ (46, 38)
    ∷ (52, 44)
    ∷ (53, 45)
    ∷ (54, 46)
    ∷ (55, 47)
    ∷ (56, 48)
    ∷ (57, 49)
    ∷ (58, 50)
    ∷ (23, 15)
    ∷ (36, 28)
    ∷ (22, 14)
    ∷ (65, 57)
    ∷ (50, 42)
    ∷ (37, 29)
    ∷ (64, 56)
    ∷ (67, 59)
    ∷ (68, 60)
    ∷ (69, 61)
    ∷ (70, 62)
    ∷ (71, 63)
    ∷ (72, 64)
    ∷ (73, 65)
    ∷ (74, 66)
    ∷ (75, 67)
    ∷ (76, 68)
    ∷ (77, 87)
    ∷ (78, 88)
    ∷ (110, 102)
    ∷ (115, 107)
    ∷ (113, 105)
    ∷ (111, 103)
    ∷ (114, 106)
    ∷ (116, 108)
    ∷ []

-- The first entry for a key, as `find` gives it, and 0 without one.
unfoldable pub find_keycode : List (ℕ × ℕ) → ℕ → ℕ
find_keycode [] x11_keycode = 0
find_keycode ((x, linux) ∷ rest) x11_keycode =
    let further = find_keycode rest x11_keycode in if x == x11_keycode then linux else further

unfoldable pub x11_to_linux_keycode : ℕ → ℕ
unfolding find_keycode keycode_map
x11_to_linux_keycode x11_keycode = find_keycode keycode_map x11_keycode

abbrev pub channel_capacity : ℕ
channel_capacity = 1024

pub record InputManager : Type 0 where
  pub queue : List InputEvent
  pub display_width : ℕ
  pub display_height : ℕ

unfoldable pub new : (display_width display_height : ℕ) → InputManager
new display_width display_height = record {
  queue = [];
  display_width = display_width;
  display_height = display_height;
}

-- `let _ = self.tx.try_send(event)`: an event that finds the queue full is dropped.
unfoldable pub try_send : InputEvent → InputManager → InputManager
try_send event m =
    if ltb (length m.queue) channel_capacity
    then record m { queue = m.queue ++ (event ∷ []) }
    else m

unfoldable pub inject_mouse_down : (x y : ℤ) → MouseButton → InputManager → InputManager
inject_mouse_down x y button = try_send (mouse_down button x y)

unfoldable pub inject_mouse_up : (x y : ℤ) → MouseButton → InputManager → InputManager
inject_mouse_up x y button = try_send (mouse_up button x y)

unfoldable pub inject_mouse_move : (x y : ℤ) → InputManager → InputManager
inject_mouse_move x y = try_send (mouse_move x y)

unfoldable pub inject_key_down : ℕ → InputManager → InputManager
inject_key_down keycode = try_send (key_down keycode)

unfoldable pub inject_key_up : ℕ → InputManager → InputManager
inject_key_up keycode = try_send (key_up keycode)

unfoldable pub inject_touch_start : (tracking_id : ℕ) (x y : ℤ) → InputManager → InputManager
inject_touch_start tracking_id x y = try_send (touch_start tracking_id x y)

unfoldable pub inject_touch_move : (tracking_id : ℕ) (x y : ℤ) → InputManager → InputManager
inject_touch_move tracking_id x y = try_send (touch_move tracking_id x y)

unfoldable pub inject_touch_end : (tracking_id : ℕ) → InputManager → InputManager
inject_touch_end tracking_id = try_send (touch_end tracking_id)

unfoldable pub inject_android_button : AndroidButton → InputManager → InputManager
inject_android_button button = try_send (android_button button)

unfoldable pub try_recv : InputManager → Option InputEvent × InputManager
try_recv m = elim m.queue [ [] ↦ (none, m) | e ∷ rest ↦ (some e, record m { queue = rest }) ]

-- Nothing else sends while a receiver waits here, so an empty queue is a timeout.
unfoldable pub recv_timeout : InputManager → Result InputEvent × InputManager
recv_timeout m = elim m.queue [
  | [] ↦ (err (input_error "channel recv timeout"), m)
  | e ∷ rest ↦ (ok e, record m { queue = rest })
]
