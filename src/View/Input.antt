-- ===== src/View/Input.antt =====
-- The mouse and keyboard handlers of RemoteControl_rtc/RemoteControl_rtc/VideoRenderWnd.cpp, on the
-- window that gets the message. `extra_info` is what `GetMessageExtraInfo` returns.
use webrtc_cpp_remote_contro.Base.{
  ℕ, ◌+◌, ◌*◌, ◌%◌, ◌^◌, Bool, true, false, not, ◌&&◌, ◌||◌, Option, none, some, List, [], ◌∷◌,
  ◌==◌, if◌then◌else◌,
}
use webrtc_cpp_remote_contro.Base.Int.{ℤ}
use webrtc_cpp_remote_contro.View.Geometry.{unsigned_short}
use webrtc_cpp_remote_contro.View.Window.{
  Window, Which, main_window, fullscreen_window, Call, input, Outcome, Screen, toggle_scale_mode,
  toggle_fullscreen, exit_fullscreen,
}
use webrtc_cpp_remote_contro.Control.Injector.{is_injected_message}

-- `MAKELPARAM` and `MAKEWPARAM`.
unfoldable pub make_long : ℕ → ℕ → ℕ
make_long low high = low % 2 ^ 16 + high % 2 ^ 16 * 2 ^ 16

pub data Button : Type 0 where
  left : Button
  right : Button
  middle : Button

-- The messages of `winuser.h`.
abbrev pub wm_mousemove : ℕ
wm_mousemove = 0x200

abbrev pub wm_mousewheel : ℕ
wm_mousewheel = 0x20a

abbrev pub wm_keydown : ℕ
wm_keydown = 0x100

abbrev pub wm_keyup : ℕ
wm_keyup = 0x101

abbrev pub wm_button : Button → Bool → ℕ
wm_button left down = if down then 0x201 else 0x202
wm_button right down = if down then 0x204 else 0x205
wm_button middle down = if down then 0x207 else 0x208

abbrev pub vk_escape : ℕ
vk_escape = 0x1b

abbrev pub vk_f10 : ℕ
vk_f10 = 0x79

abbrev pub vk_f11 : ℕ
vk_f11 = 0x7a

abbrev which_eq : Which → Which → Bool
which_eq main_window main_window = true
which_eq fullscreen_window fullscreen_window = true
which_eq main_window fullscreen_window = false
which_eq fullscreen_window main_window = false

abbrev call_input : Option ℕ → Which → ℕ → ℕ → ℕ → List Call
call_input none which message wparam lparam = []
call_input (some callback) which message wparam lparam =
    input callback which message wparam lparam ∷ []

-- The view uses the callback of its owner.
unfoldable pub forward_input : ℕ → Which → ℕ → ℕ → ℕ → Window → List Call
unfolding is_injected_message
forward_input extra_info which message wparam lparam w =
    if is_injected_message extra_info
    then []
    else call_input w.input_callback which message wparam lparam

abbrev point_param : ℤ → ℤ → ℕ
point_param x y = make_long (unsigned_short x) (unsigned_short y)

unfoldable pub on_mouse_move : ℕ → Which → ℕ → ℤ → ℤ → Window → Outcome
unfolding forward_input make_long unsigned_short
on_mouse_move extra_info which flags x y w =
    (w, forward_input extra_info which wm_mousemove flags (point_param x y) w)

-- The handlers of the three buttons; they take the capture.
unfoldable pub on_button_down : ℕ → Which → Button → ℕ → ℤ → ℤ → Window → Outcome
unfolding forward_input make_long unsigned_short
on_button_down extra_info which button flags x y w = (
  record w { capture = some which },
  forward_input extra_info which (wm_button button true) flags (point_param x y) w,
)

unfoldable pub on_left_double_click : ℕ → Which → ℕ → ℤ → ℤ → Window → Outcome
unfolding on_button_down is_injected_message
on_left_double_click extra_info which flags x y w =
    if is_injected_message extra_info
    then (w, [])
    else on_button_down extra_info which left flags x y w

abbrev release_own : Which → Option Which → Option Which
release_own fullscreen_window c = c
release_own main_window none = none
release_own main_window (some c) = if which_eq c main_window then none else some c

-- Only the main window gives the capture up.
unfoldable pub on_button_up : ℕ → Which → Button → ℕ → ℤ → ℤ → Window → Outcome
unfolding forward_input make_long unsigned_short
on_button_up extra_info which button flags x y w = (
  record w { capture = release_own which w.capture },
  forward_input extra_info which (wm_button button false) flags (point_param x y) w,
)

-- The amount is a 16-bit pattern.
unfoldable pub on_mouse_wheel : ℕ → Which → ℕ → ℕ → ℤ → ℤ → Window → Outcome
unfolding forward_input make_long unsigned_short
on_mouse_wheel extra_info which flags delta x y w =
    (w, forward_input extra_info which wm_mousewheel (make_long flags delta) (point_param x y) w)

unfoldable pub on_mouse_activate : Which → Window → Window
on_mouse_activate main_window w = w
on_mouse_activate fullscreen_window w = record w { capture = some fullscreen_window }

-- `inactive` is `state == WA_INACTIVE`.
unfoldable pub on_activate : Which → Bool → Window → Window
on_activate main_window inactive w = w
on_activate fullscreen_window inactive w =
    if not inactive then record w { capture = some fullscreen_window } else record w {
      capture = elim w.capture [
        | none ↦ none
        | some c ↦ if which_eq c fullscreen_window then none else some c
      ];
    }

-- The window's own callback.
abbrev own_callback : Which → Window → Option ℕ
own_callback main_window w = w.input_callback
own_callback fullscreen_window w = elim w.fullscreen_view [
  | none ↦ none
  | some v ↦ v.input_callback
]

abbrev is_view : Which → Bool
is_view main_window = false
is_view fullscreen_window = true

unfoldable pub on_key_down : ℕ → Screen → Which → ℕ → ℕ → ℕ → Window → Outcome
unfolding is_injected_message make_long
on_key_down extra_info s which key repeat flags w =
    if is_injected_message extra_info
    then (w, [])
    else if is_view which && (key == vk_escape || key == vk_f11)
    then exit_fullscreen w
    else if key == vk_f10
    then toggle_scale_mode w
    else if not (is_view which) && (key == vk_escape && w.fullscreen || key == vk_f11)
    then toggle_fullscreen s w
    else (w, call_input (own_callback which w) which wm_keydown key (make_long repeat flags))

unfoldable pub on_key_up : ℕ → Which → ℕ → ℕ → ℕ → Window → Outcome
unfolding is_injected_message make_long
on_key_up extra_info which key repeat flags w =
    if is_injected_message extra_info || (key == vk_escape || key == vk_f11 || key == vk_f10)
    then (w, [])
    else (w, call_input (own_callback which w) which wm_keyup key (make_long repeat flags))
