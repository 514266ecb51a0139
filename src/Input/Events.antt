-- ===== src/Input/Events.antt =====
-- The order of input events, what is dropped, and the keycode table against the evdev offset.
use litedroid.Base.{
  ℕ, zero, suc, ◌+◌, ◌≡◌, ◌⊎◌, refl, ap, ◌∙◌, List, [], ◌∷◌, ◌++◌, none, some, length, take, arith,
  lt→ltb, le→ltb, length-append, append-nil, append_assoc, take-nil,
}
use litedroid.Core.Types.{InputEvent}
use litedroid.Input.{
  InputManager, keycode_map, find_keycode, x11_to_linux_keycode, channel_capacity, try_send,
  try_recv,
}

-- Events sent one after another, and events taken until none is left or `n` are.
unfoldable pub send_all : List InputEvent → InputManager → InputManager
send_all [] m = m
send_all (e ∷ es) m = send_all es (try_send e m)

unfoldable pub receive_all : (n : ℕ) → InputManager → List InputEvent
receive_all zero m = []
receive_all (suc n) m =
    let (event, m') = try_recv m in elim event [ none ↦ [] | some e ↦ e ∷ receive_all n m' ]

-- What a queue with `room` free places keeps of `es`.
send_all-queue :
    (es : List InputEvent) (m : InputManager) (room : ℕ)
    → length m.queue + room ≡ channel_capacity
    → (send_all es m).queue ≡ m.queue ++ take room es
unfolding send_all try_send
send_all-queue [] m room h = rw (take-nil room, append-nil m.queue) refl
send_all-queue (e ∷ es) m zero h =
    rw (le→ltb (length m.queue) channel_capacity (omega arith), send_all)
      (send_all-queue es m zero h)
send_all-queue (e ∷ es) m (suc room) h =
    rw (lt→ltb (length m.queue) channel_capacity (omega arith), send_all)
      (send_all-queue es (record m { queue = m.queue ++ (e ∷ []) }) room
          (rw length-append (omega arith))
        ∙ append_assoc m.queue (e ∷ []) (take room es))

abbrev waiting : List InputEvent → (width height : ℕ) → InputManager
waiting q width height = record { queue = q; display_width = width; display_height = height }

receive_all-queue :
    (n : ℕ) (q : List InputEvent) (width height : ℕ)
    → receive_all n (waiting q width height) ≡ take n q
unfolding receive_all try_recv
receive_all-queue zero q width height = refl
receive_all-queue (suc n) [] width height = refl
receive_all-queue (suc n) (x ∷ q) width height =
    ap (λ (t : List InputEvent). x ∷ t) (receive_all-queue n q width height)

-- With `room` places left of the 1024, events come out in the order they went in: first those that
-- were waiting, then the first `room` of the new ones, the later ones being dropped.
pub receive_all-send_all :
    (n room : ℕ) (es : List InputEvent) (m : InputManager)
    → length m.queue + room ≡ channel_capacity
    → receive_all n (send_all es m) ≡ take n (m.queue ++ take room es)
receive_all-send_all n room es m h =
    receive_all-queue n (send_all es m).queue (send_all es m).display_width
      (send_all es m).display_height
    ∙ ap (take n) (send_all-queue es m room h)

-- Each X11 key has the evdev code that lies eight below it or none (0), but for the keys 77 and 78,
-- which give the codes 87 and 88 of F11 and F12.
pub keycode_offset :
    (k : ℕ)
    → (x11_to_linux_keycode k ≡ 0)
      ⊎ (x11_to_linux_keycode k + 8 ≡ k)
      ⊎ ((k ≡ 77) × (x11_to_linux_keycode k ≡ 87))
      ⊎ ((k ≡ 78) × (x11_to_linux_keycode k ≡ 88))
unfolding x11_to_linux_keycode find_keycode keycode_map
keycode_offset k = ground arith
