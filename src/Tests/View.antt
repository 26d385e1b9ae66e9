-- ===== src/Tests/View.antt =====
-- The video window on small inputs, and its theorems at concrete ones.
use webrtc_cpp_remote_contro.Base.{
  ℕ, ◌+◌, ◌*◌, ◌/◌, ◌≤◌, ◌<◌, ◌^◌, ◌≡◌, refl, arith, true, false, List, [], ◌∷◌, Option, none, some,
  length,
}
use webrtc_cpp_remote_contro.Base.Int.{ℤ, pos, negsuc, pos_part, ◌+ℤ◌, ◌-ℤ◌}
use webrtc_cpp_remote_contro.Control.Injector.{
  System, at_least_two, absolute_coordinate, clamp_absolute, remote_input_marker,
}
use webrtc_cpp_remote_contro.View.Geometry.{
  Extent, calculate_video_rect, normalize, fit, to_int, at_least_one,
}
use webrtc_cpp_remote_contro.View.Fit.{IsScreen, IsFitted, video_rect-IsFitted}
use webrtc_cpp_remote_contro.View.Pointing.{IsMulDiv, pointed_pixel_arrives}
use webrtc_cpp_remote_contro.View.Window.{
  Window, VideoFrameData, Screen, Which, main_window, fullscreen_window, enter_fullscreen,
  exit_fullscreen, newest_frame,
}
use webrtc_cpp_remote_contro.View.Input.{left}
use webrtc_cpp_remote_contro.View.Modes.{
  Event, message, closed, frame_posted, view_frame_posted, view_frame_handled, fullscreen_pressed,
  view_lost, button_down, key_down, handle, run, IsWindowed, run-IsWindowed, injected-Silent,
}
use webrtc_cpp_remote_contro.View.Fullscreen.{
  FrameEvent, main_handles, posted_to_view, view_handles, frames, last_frame, fullscreen-round_trip,
}

abbrev window_area : Extent
window_area = record { width = 800; height = 450 }

abbrev full_hd : Extent
full_hd = record { width = 1920; height = 1080 }

abbrev narrow : Extent
narrow = record { width = 300; height = 900 }

screen :
    (e : Extent) → 0 < e.width → 0 < e.height → e.width < 2 ^ 15 → e.height < 2 ^ 15 → IsScreen e
screen e a b c d = record { wide = a; high = b; width_bound = c; height_bound = d }

fit-window : fit window_area full_hd ≡ record { width = 800; height = 450 }
unfolding fit to_int at_least_one
fit-window = refl

fit-narrow : fit window_area narrow ≡ record { width = 150; height = 450 }
unfolding fit to_int at_least_one
fit-narrow = refl

video_rect-IsFitted_example :
    (l t : ℕ) × (size : Extent) × (calculate_video_rect window_area (some narrow) false
      ≡ record { left = pos l; top = pos t; width = size.width; height = size.height })
    × IsFitted window_area narrow size
    × (2 * l + size.width ≤ 800)
    × (800 ≤ 2 * l + size.width + 1)
    × (2 * t + size.height ≤ 450)
    × (450 ≤ 2 * t + size.height + 1)
video_rect-IsFitted_example =
    video_rect-IsFitted window_area narrow
      (screen window_area (omega arith) (omega arith) (omega arith) (omega arith))
      (screen narrow (omega arith) (omega arith) (omega arith) (omega arith))

-- A product over a divisor, rounded to the nearest integer.
abbrev rounded : ℕ → ℕ → ℕ → ℕ
rounded a b c = (2 * (a * b) + c) / (2 * c)

abbrev mul_div : ℤ → ℤ → ℤ → ℤ
mul_div a b c = pos (rounded (pos_part a) (pos_part b) (pos_part c))

mul_div-IsMulDiv : IsMulDiv mul_div
mul_div-IsMulDiv a b c p q r s = (rounded a b c, refl, grind arith, grind arith)

abbrev remote : System
remote = record {
  virtual_left = negsuc 1279;
  virtual_top = pos 0;
  virtual_width = pos 3200;
  virtual_height = pos 1080;
  primary_width = pos 1920;
  primary_height = pos 1080;
  mul_div = mul_div;
  send_input = length;
}

pointed_pixel_arrives_example :
    absolute_coordinate remote
      (normalize mul_div (pos 40 +ℤ pos 1234) (pos 40) 1920)
      (pos 1920)
      (negsuc 1279)
      (pos 3200)
    ≡ clamp_absolute
        (mul_div (pos 1234 -ℤ negsuc 1279) (pos 65535) (at_least_two (pos 3200) -ℤ pos 1))
pointed_pixel_arrives_example =
    pointed_pixel_arrives mul_div remote 1920 1234 (pos 40) (negsuc 1279) (pos 3200)
      mul_div-IsMulDiv mul_div-IsMulDiv (omega arith) (omega arith) (omega arith)

abbrev gray : ℕ → VideoFrameData
gray level = record { width = 1; height = 1; pixels = level ∷ level ∷ level ∷ 255 ∷ [] }

abbrev ready : Screen
ready = record { monitor_found = true; owner_found = true; created = true }

abbrev new_window : Window
new_window = record {
  alive = true;
  frame = some (gray 10);
  frame_dirty = false;
  original_size = false;
  fullscreen = false;
  fullscreen_view = none;
  input_callback = some 7;
  capture = none;
}

abbrev evening : List Event
evening =
    fullscreen_pressed ready
    ∷ frame_posted (gray 20) []
    ∷ message 0 fullscreen_window (key_down ready 0x79 1 0)
    ∷ message 0 fullscreen_window (button_down left 1 (pos 3) (pos 4))
    ∷ view_frame_posted (gray 25)
    ∷ view_frame_handled
    ∷ view_lost
    ∷ frame_posted (gray 30) (gray 40 ∷ [])
    ∷ closed main_window
    ∷ []

run-IsWindowed_example : IsWindowed (run evening new_window)
run-IsWindowed_example = run-IsWindowed evening new_window (record { view = refl; captured = tt })

injected-Silent_example :
    ((handle remote_input_marker main_window (button_down left 1 (pos 3) (pos 4)) new_window).1
      ≡ [])
    × ((c : Option Which) × ((handle remote_input_marker main_window
            (button_down left 1 (pos 3) (pos 4))
            new_window).0
          ≡ record new_window { capture = c }))
injected-Silent_example =
    injected-Silent main_window (button_down left 1 (pos 3) (pos 4)) new_window

-- The last frame is posted to the view too late.
abbrev visit : List FrameEvent
visit =
    posted_to_view (gray 50)
    ∷ main_handles (gray 60) (gray 70 ∷ [])
    ∷ posted_to_view (gray 80)
    ∷ view_handles
    ∷ posted_to_view (gray 90)
    ∷ []

fullscreen-round_trip_example :
    (exit_fullscreen (frames visit (enter_fullscreen ready new_window).0)).0.frame
    ≡ last_frame (some (gray 10)) [] visit
fullscreen-round_trip_example =
    fullscreen-round_trip ready visit new_window refl refl refl refl refl

visit_shown : last_frame (some (gray 10)) [] visit ≡ some (gray 80)
unfolding last_frame newest_frame
visit_shown = refl
