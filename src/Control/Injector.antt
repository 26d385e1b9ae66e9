-- ===== src/Control/Injector.antt =====
-- RemoteControl_rtc/RemoteControl_rtc/InputInjectorWin.cpp. What Windows answers is a parameter:
-- `GetSystemMetrics`, `MulDiv`, and `SendInput`, which returns how many inputs it inserted.
use webrtc_cpp_remote_contro.Base.{
  ℕ, ◌+◌, Bool, false, List, [], ◌∷◌, Option, none, some, ltb, ◌==◌, if◌then◌else◌, length,
}
use webrtc_cpp_remote_contro.Base.Int.{ℤ, pos, negsuc, ◌-ℤ◌, ltb_ℤ}

-- The flags of `winuser.h` that the source uses.
pub data Flag : Type 0 where
  move absolute virtual_desk wheel : Flag
  left_up left_down right_up right_down middle_up middle_down : Flag
  key_up : Flag

-- The fields of `INPUT` that the source sets.
pub data Input : Type 0 where
  mouse_input : ℕ → ℕ → ℕ → List Flag → ℕ → Input
  keyboard_input : ℕ → List Flag → ℕ → Input

abbrev pub remote_input_marker : ℕ
remote_input_marker = 0x52435431

pub record System : Type 0 where
  pub virtual_left : ℤ
  pub virtual_top : ℤ
  pub virtual_width : ℤ
  pub virtual_height : ℤ
  pub primary_width : ℤ
  pub primary_height : ℤ
  pub mul_div : ℤ → ℤ → ℤ → ℤ
  pub send_input : List Input → ℕ

-- `metric > 1 ? metric : 2`
abbrev pub at_least_two : ℤ → ℤ
at_least_two metric = if ltb_ℤ (pos 1) metric then metric else pos 2

-- `max(0, min(65535, value))`
unfoldable pub clamp_absolute : ℤ → ℕ
clamp_absolute (pos n) = if ltb n 65535 then n else 65535
clamp_absolute (negsuc n) = 0

-- One coordinate: over the primary screen, and then over the virtual desktop.
unfoldable pub absolute_coordinate : System → ℕ → ℤ → ℤ → ℤ → ℕ
unfolding clamp_absolute
absolute_coordinate w x primary virtual_start virtual_size =
    let on_primary = w.mul_div (pos x) (at_least_two primary -ℤ pos 1) (pos 65535) in
    clamp_absolute
      (w.mul_div (on_primary -ℤ virtual_start) (pos 65535) (at_least_two virtual_size -ℤ pos 1))

unfoldable pub fill_absolute_mouse_move : System → ℕ → ℕ → Input
fill_absolute_mouse_move w x y =
    mouse_input (absolute_coordinate w x w.primary_width w.virtual_left w.virtual_width)
      (absolute_coordinate w y w.primary_height w.virtual_top w.virtual_height) 0
      (move ∷ absolute ∷ virtual_desk ∷ []) remote_input_marker

-- The table `flags`, with the button as its row.
abbrev pub button_flag : ℕ → Bool → Flag
button_flag button down =
    if button == 0
    then (if down then left_down else left_up)
    else if button == 1
    then (if down then right_down else right_up)
    else (if down then middle_down else middle_up)

unfoldable pub fill_mouse_button : ℕ → Bool → Option Input
fill_mouse_button button down =
    if ltb 2 button
    then none
    else some (mouse_input 0 0 0 (button_flag button down ∷ []) remote_input_marker)

-- `IsInjectedMessage`, on what `GetMessageExtraInfo` returns.
unfoldable pub is_injected_message : ℕ → Bool
is_injected_message extra_info = extra_info == remote_input_marker

-- A call of the injector: the inputs handed to `SendInput`, and the result. A call that hands over
-- nothing has `none`.
pub record Injected : Type 0 where
  pub call : Option (List Input)
  pub result : Bool

unfoldable pub send : System → List Input → Injected
send w inputs = record { call = some inputs; result = w.send_input inputs == length inputs }

unfoldable pub mouse_move : System → ℕ → ℕ → Injected
unfolding send fill_absolute_mouse_move
mouse_move w x y = send w (fill_absolute_mouse_move w x y ∷ [])

abbrev refused : Injected
refused = record { call = none; result = false }

unfoldable pub mouse_button : System → ℕ → Bool → Injected
unfolding send fill_mouse_button
mouse_button w button down = elim (fill_mouse_button button down) [
  | none ↦ refused
  | some input ↦ send w (input ∷ [])
]

-- One call for both inputs.
unfoldable pub mouse_button_at : System → ℕ → ℕ → ℕ → Bool → Injected
unfolding send fill_absolute_mouse_move fill_mouse_button
mouse_button_at w x y button down = elim (fill_mouse_button button down) [
  | none ↦ refused
  | some input ↦ send w (fill_absolute_mouse_move w x y ∷ input ∷ [])
]

-- `static_cast<DWORD>(delta)`, on the bit patterns.
unfoldable pub sign_extend : ℕ → ℕ
sign_extend short = if ltb short 0x8000 then short else short + 0xffff_0000

unfoldable pub mouse_wheel : System → ℕ → Injected
unfolding send sign_extend
mouse_wheel w delta =
    send w (mouse_input 0 0 (sign_extend delta) (wheel ∷ []) remote_input_marker ∷ [])

unfoldable pub key : System → ℕ → Bool → Injected
unfolding send
key w virtual_key down =
    send w (keyboard_input virtual_key (if down then [] else key_up ∷ []) remote_input_marker ∷ [])
