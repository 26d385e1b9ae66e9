-- ===== src/View/Modes.antt =====
-- Runs of the video window over the messages that it may get, and what they keep.
use webrtc_cpp_remote_contro.Base.{
  ℕ, ◌≡◌, refl, arith, Bool, true, false, Option, none, some, List, [], ◌∷◌, if◌then◌else◌,
  Option-cases, inl, inr,
}
use webrtc_cpp_remote_contro.Base.Int.{ℤ}
use webrtc_cpp_remote_contro.View.Window.{
  Window, FullscreenView, Which, main_window, fullscreen_window, Outcome, Screen, VideoFrameData,
  live_view, capture_without_view, set_input_callback, on_frame, on_close, enter_fullscreen,
  toggle_scale_mode, toggle_fullscreen, exit_fullscreen, in_live_view, post_view_frame, show_posted,
  on_view_frame, on_view_destroy,
}
use webrtc_cpp_remote_contro.View.Input.{
  Button, on_mouse_move, on_button_down, on_button_up, on_left_double_click, on_mouse_wheel,
  on_mouse_activate, on_activate, on_key_down, on_key_up,
}
use webrtc_cpp_remote_contro.Control.Injector.{remote_input_marker}

-- The mouse and keyboard messages.
pub data Message : Type 0 where
  mouse_move : ℕ → ℤ → ℤ → Message
  button_down : Button → ℕ → ℤ → ℤ → Message
  button_up : Button → ℕ → ℤ → ℤ → Message
  left_double_click : ℕ → ℤ → ℤ → Message
  mouse_wheel : ℕ → ℕ → ℤ → ℤ → Message
  key_down : Screen → ℕ → ℕ → ℕ → Message
  key_up : ℕ → ℕ → ℕ → Message

unfoldable pub handle : ℕ → Which → Message → Window → Outcome
unfolding on_mouse_move on_button_down on_button_up on_left_double_click on_mouse_wheel on_key_down
    on_key_up
handle extra_info which (mouse_move flags x y) w = on_mouse_move extra_info which flags x y w
handle extra_info which (button_down b flags x y) w = on_button_down extra_info which b flags x y w
handle extra_info which (button_up b flags x y) w = on_button_up extra_info which b flags x y w
handle extra_info which (left_double_click flags x y) w =
    on_left_double_click extra_info which flags x y w
handle extra_info which (mouse_wheel flags delta x y) w =
    on_mouse_wheel extra_info which flags delta x y w
handle extra_info which (key_down s key repeat flags) w =
    on_key_down extra_info s which key repeat flags w
handle extra_info which (key_up key repeat flags) w = on_key_up extra_info which key repeat flags w

-- What else happens to the window. `view_lost` is the end of the view's window by another hand.
pub data Event : Type 0 where
  message : ℕ → Which → Message → Event
  activated : Which → Bool → Event
  mouse_activated : Which → Event
  closed : Which → Event
  frame_posted : VideoFrameData → List VideoFrameData → Event
  view_frame_posted : VideoFrameData → Event
  view_frame_handled : Event
  scale_pressed : Event
  fullscreen_pressed : Screen → Event
  callback_set : Option ℕ → Event
  view_lost : Event

abbrev lose : Option FullscreenView → Option FullscreenView
lose none = none
lose (some v) = some (on_view_destroy v)

-- Only a window that is there gets messages.
abbrev reaches : Which → Window → Bool
reaches main_window w = w.alive
reaches fullscreen_window w = elim (live_view w.fullscreen_view) [ none ↦ false | some v ↦ true ]

unfoldable pub step : Event → Window → Outcome
unfolding handle on_activate on_mouse_activate on_close on_frame toggle_scale_mode toggle_fullscreen
    post_view_frame on_view_frame set_input_callback
step (message extra_info which m) w =
    if reaches which w then handle extra_info which m w else (w, [])
step (activated which inactive) w =
    if reaches which w then (on_activate which inactive w, []) else (w, [])
step (mouse_activated which) w =
    if reaches which w then (on_mouse_activate which w, []) else (w, [])
step (closed which) w = if reaches which w then on_close which w else (w, [])
step (frame_posted f pending) w = (on_frame f pending w, [])
step (view_frame_posted f) w = (post_view_frame f w, [])
step view_frame_handled w = (on_view_frame w, [])
step scale_pressed w = toggle_scale_mode w
step (fullscreen_pressed s) w = toggle_fullscreen s w
step (callback_set c) w = (set_input_callback c w, [])
step view_lost w = (
  record w { fullscreen_view = lose w.fullscreen_view; capture = capture_without_view w.capture },
  [],
)

pub run : List Event → Window → Window
run [] w = w
run (e ∷ es) w = run es (step e w).0

-- The view is that of the window: the same callback, and while its window is there the same scale
-- and the only frame.
abbrev pub Follows : Window → FullscreenView → Type 0
Follows w v =
    (v.input_callback ≡ w.input_callback)
    × (v.alive ≡ true → v.original_size ≡ w.original_size)
    × (v.alive ≡ true → w.frame ≡ none)

abbrev pub FollowsIn : Window → Option FullscreenView → Bool → Type 0
FollowsIn w none fullscreen = fullscreen ≡ false
FollowsIn w (some v) fullscreen = (fullscreen ≡ true) × Follows w v

abbrev pub IsCaptured : Option FullscreenView → Option Which → Type 0
IsCaptured view none = Unit {0}
IsCaptured view (some main_window) = Unit {0}
IsCaptured none (some fullscreen_window) = false ≡ true
IsCaptured (some v) (some fullscreen_window) = v.alive ≡ true

pub record IsWindowed (w : Window) : Type 0 where
  pub view : FollowsIn w w.fullscreen_view w.fullscreen
  pub captured : IsCaptured w.fullscreen_view w.capture

enter_fullscreen-IsWindowed :
    (s : Screen) (w : Window) → IsWindowed w → IsWindowed (enter_fullscreen s w).0
unfolding enter_fullscreen
enter_fullscreen-IsWindowed s w h = ground arith

exit_fullscreen-IsWindowed : (w : Window) → IsWindowed w → IsWindowed (exit_fullscreen w).0
unfolding exit_fullscreen
exit_fullscreen-IsWindowed w h = ground arith

toggle_scale_mode-IsWindowed : (w : Window) → IsWindowed w → IsWindowed (toggle_scale_mode w).0
unfolding toggle_scale_mode
toggle_scale_mode-IsWindowed w h = ground arith

on_frame-IsWindowed :
    (f : VideoFrameData) (pending : List VideoFrameData) (w : Window)
    → IsWindowed w
    → IsWindowed (on_frame f pending w)
unfolding on_frame
on_frame-IsWindowed f pending w h = ground arith

-- A view whose scale and callback are the same, and which is there as before.
abbrev IsSameView : FullscreenView → FullscreenView → Type 0
IsSameView v v' =
    (v'.input_callback ≡ v.input_callback)
    × (v'.original_size ≡ v.original_size)
    × (v'.alive ≡ v.alive)

show_posted-IsSameView :
    (pending : List VideoFrameData) (v : FullscreenView) → IsSameView v (show_posted pending v)
unfolding show_posted
show_posted-IsSameView [] v = (refl, refl, refl)
show_posted-IsSameView (f ∷ pending) v = (refl, refl, refl)

set_view-IsWindowed :
    (w : Window) (v v' : FullscreenView)
    → w.fullscreen_view ≡ some v
    → IsSameView v v'
    → IsWindowed w
    → IsWindowed (record w { fullscreen_view = some v' })
set_view-IsWindowed w v v' e same h = ground (arith, e, same)

in_live_view-IsWindowed :
    (f : FullscreenView → FullscreenView) (w : Window)
    → ((v : FullscreenView) → IsSameView v (f v))
    → IsWindowed w
    → IsWindowed (in_live_view f w)
unfolding in_live_view
in_live_view-IsWindowed f w same h = elim (Option-cases (live_view w.fullscreen_view)) [
  | inl e ↦ rw (e, in_live_view) h
  | inr (v, e) ↦ rw (e, in_live_view) (set_view-IsWindowed w v (f v) (ground (arith, e)) (same v) h)
]

post_view_frame-IsWindowed :
    (f : VideoFrameData) (w : Window) → IsWindowed w → IsWindowed (post_view_frame f w)
unfolding post_view_frame
post_view_frame-IsWindowed f w h = in_live_view-IsWindowed _ w (λ v. (refl, refl, refl)) h

on_view_frame-IsWindowed : (w : Window) → IsWindowed w → IsWindowed (on_view_frame w)
unfolding on_view_frame
on_view_frame-IsWindowed w h =
    in_live_view-IsWindowed _ w (λ v. show_posted-IsSameView v.posted v) h

view_lost-IsWindowed : (w : Window) → IsWindowed w → IsWindowed (step view_lost w).0
unfolding step on_view_destroy
view_lost-IsWindowed w h = ground arith

set_input_callback-IsWindowed :
    (c : Option ℕ) (w : Window) → IsWindowed w → IsWindowed (set_input_callback c w)
unfolding set_input_callback
set_input_callback-IsWindowed c w h = ground arith

handle-IsWindowed :
    (extra_info : ℕ) (which : Which) (m : Message) (w : Window)
    → reaches which w ≡ true
    → IsWindowed w
    → IsWindowed (handle extra_info which m w).0
unfolding handle toggle_fullscreen
handle-IsWindowed extra_info main_window (key_down s key repeat flags) w r h = ground (
  arith,
  enter_fullscreen-IsWindowed s w h,
  exit_fullscreen-IsWindowed w h,
  toggle_scale_mode-IsWindowed w h,
)
handle-IsWindowed extra_info fullscreen_window (key_down s key repeat flags) w r h =
    ground (arith, exit_fullscreen-IsWindowed w h, toggle_scale_mode-IsWindowed w h)
handle-IsWindowed extra_info main_window _ w r h = ground arith
handle-IsWindowed extra_info fullscreen_window _ w r h = ground arith

toggle_fullscreen-IsWindowed :
    (s : Screen) (w : Window) → IsWindowed w → IsWindowed (toggle_fullscreen s w).0
unfolding toggle_fullscreen
toggle_fullscreen-IsWindowed s w h =
    ground (arith, enter_fullscreen-IsWindowed s w h, exit_fullscreen-IsWindowed w h)

on_close-IsWindowed : (which : Which) (w : Window) → IsWindowed w → IsWindowed (on_close which w).0
unfolding on_close
on_close-IsWindowed main_window w h = ground (arith, exit_fullscreen-IsWindowed w h)
on_close-IsWindowed fullscreen_window w h = exit_fullscreen-IsWindowed w h

on_activate-IsWindowed :
    (which : Which) (inactive : Bool) (w : Window)
    → reaches which w ≡ true
    → IsWindowed w
    → IsWindowed (on_activate which inactive w)
unfolding on_activate
on_activate-IsWindowed main_window inactive w r h = h
on_activate-IsWindowed fullscreen_window inactive w r h = ground arith

on_mouse_activate-IsWindowed :
    (which : Which) (w : Window)
    → reaches which w ≡ true
    → IsWindowed w
    → IsWindowed (on_mouse_activate which w)
unfolding on_mouse_activate
on_mouse_activate-IsWindowed main_window w r h = h
on_mouse_activate-IsWindowed fullscreen_window w r h = ground arith

if-IsWindowed :
    (b : Bool) (w : Window) (o : Outcome)
    → IsWindowed w
    → (b ≡ true → IsWindowed o.0)
    → IsWindowed (if b then o else (w, [])).0
if-IsWindowed true w o h k = k refl
if-IsWindowed false w o h k = h

step-IsWindowed : (e : Event) (w : Window) → IsWindowed w → IsWindowed (step e w).0
unfolding step
step-IsWindowed (message extra_info which m) w h =
    if-IsWindowed (reaches which w) w _ h (λ r. handle-IsWindowed extra_info which m w r h)
step-IsWindowed (activated which inactive) w h =
    if-IsWindowed (reaches which w) w _ h (λ r. on_activate-IsWindowed which inactive w r h)
step-IsWindowed (mouse_activated which) w h =
    if-IsWindowed (reaches which w) w _ h (λ r. on_mouse_activate-IsWindowed which w r h)
step-IsWindowed (closed which) w h =
    if-IsWindowed (reaches which w) w _ h (λ r. on_close-IsWindowed which w h)
step-IsWindowed (frame_posted f pending) w h = on_frame-IsWindowed f pending w h
step-IsWindowed (view_frame_posted f) w h = post_view_frame-IsWindowed f w h
step-IsWindowed view_frame_handled w h = on_view_frame-IsWindowed w h
step-IsWindowed scale_pressed w h = toggle_scale_mode-IsWindowed w h
step-IsWindowed (fullscreen_pressed s) w h = toggle_fullscreen-IsWindowed s w h
step-IsWindowed (callback_set c) w h = set_input_callback-IsWindowed c w h
step-IsWindowed view_lost w h = view_lost-IsWindowed w h

-- Whatever messages the window and its view get, in whatever order, from a state in which this holds
-- on it holds: the view is there exactly in fullscreen mode and has the input callback of the window;
-- while the view's own window is there, both have the same scale mode and the main window holds no
-- frame; and the view has the capture only while its window is there.
pub run-IsWindowed : (es : List Event) (w : Window) → IsWindowed w → IsWindowed (run es w)
unfolding run
run-IsWindowed [] w h = h
run-IsWindowed (e ∷ es) w h = run-IsWindowed es (step e w).0 (step-IsWindowed e w h)

-- A mouse or keyboard message that the injector has made is not reported to the input callback and
-- changes nothing of the window but the capture, whichever message it is and whichever window gets it.
pub injected-Silent :
    (which : Which) (m : Message) (w : Window)
    → ((handle remote_input_marker which m w).1 ≡ [])
      × ((c : Option Which) × ((handle remote_input_marker which m w).0 ≡ record w { capture = c }))
unfolding handle
injected-Silent which (mouse_move flags x y) w = (refl, (w.capture, refl))
injected-Silent which (button_down b flags x y) w = (refl, (some which, refl))
injected-Silent which (button_up b flags x y) w = (refl, (_, refl))
injected-Silent which (left_double_click flags x y) w = (refl, (w.capture, refl))
injected-Silent which (mouse_wheel flags delta x y) w = (refl, (w.capture, refl))
injected-Silent which (key_down s key repeat flags) w = (refl, (w.capture, refl))
injected-Silent which (key_up key repeat flags) w = (refl, (w.capture, refl))
