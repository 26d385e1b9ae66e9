-- ===== src/View/Window.antt =====
-- The video window and its fullscreen view: the frames, the two modes and the input handlers of
-- RemoteControl_rtc/RemoteControl_rtc/VideoRenderWnd.cpp. What Windows answers is an argument.
use webrtc_cpp_remote_contro.Base.{
  ℕ, Bool, true, false, not, ◌||◌, Option, none, some, List, [], ◌∷◌, ◌++◌, if◌then◌else◌,
}

pub record VideoFrameData : Type 0 where
  pub width : ℕ
  pub height : ℕ
  pub pixels : List ℕ

-- The input callback is known by a number. `alive` is `::IsWindow` of the fullscreen window, `posted` are
-- the frames in its message queue.
pub record FullscreenView : Type 0 where
  pub alive : Bool
  pub frame : Option VideoFrameData
  pub frame_dirty : Bool
  pub original_size : Bool
  pub input_callback : Option ℕ
  pub posted : List VideoFrameData

pub data Which : Type 0 where
  main_window : Which
  fullscreen_window : Which

-- The main video window; it owns the view. `capture` is what `::GetCapture` answers, as far as it is
-- one of the two.
pub record Window : Type 0 where
  pub alive : Bool
  pub frame : Option VideoFrameData
  pub frame_dirty : Bool
  pub original_size : Bool
  pub fullscreen : Bool
  pub fullscreen_view : Option FullscreenView
  pub input_callback : Option ℕ
  pub capture : Option Which

-- What a handler does to the outside: the calls of the callbacks.
pub data Call : Type 0 where
  input : ℕ → Which → ℕ → ℕ → ℕ → Call
  scale_mode_changed : Bool → Call
  fullscreen_changed : Bool → Call

abbrev pub Outcome : Type 0
Outcome = Window × List Call

-- A view that is there and whose window is.
abbrev pub live_view : Option FullscreenView → Option FullscreenView
live_view none = none
live_view (some v) = if v.alive then some v else none

-- `SetInputCallback`
unfoldable pub set_input_callback : Option ℕ → Window → Window
set_input_callback callback w =
    let follow : Option FullscreenView = elim w.fullscreen_view [
      | none ↦ none
      | some v ↦ some (record v { input_callback = callback })
    ] in
    record w { input_callback = callback; fullscreen_view = follow }

-- The last of the frames that wait in the message queue, or the one at hand.
unfoldable pub newest_frame : VideoFrameData → List VideoFrameData → VideoFrameData
newest_frame f [] = f
newest_frame f (g ∷ pending) = newest_frame g pending

-- `OnFrame`, on the posted frame and those behind it in the queue.
unfoldable pub on_frame : VideoFrameData → List VideoFrameData → Window → Window
unfolding newest_frame
on_frame f pending w =
    let newest = newest_frame f pending in
    elim (live_view w.fullscreen_view) [
      | some v ↦ record w {
        fullscreen_view = some (record v { frame = some newest; frame_dirty = true });
      }
      | none ↦ record w { frame = some newest; frame_dirty = true }
    ]

-- What happens in the view, while its window is there.
unfoldable pub in_live_view : (FullscreenView → FullscreenView) → Window → Window
in_live_view f w = elim (live_view w.fullscreen_view) [
  | none ↦ w
  | some v ↦ record w { fullscreen_view = some (f v) }
]

-- A frame is posted to the view's window: the renderer does this in the fullscreen mode.
unfoldable pub post_view_frame : VideoFrameData → Window → Window
unfolding in_live_view
post_view_frame f w = in_live_view (λ v. record v { posted = v.posted ++ f ∷ [] }) w

-- `OnFrame` of the view, on what is in its queue; the view has no view of its own.
unfoldable pub show_posted : List VideoFrameData → FullscreenView → FullscreenView
unfolding newest_frame
show_posted [] v = v
show_posted (f ∷ pending) v = record v {
  frame = some (newest_frame f pending);
  frame_dirty = true;
  posted = [];
}

unfoldable pub on_view_frame : Window → Window
unfolding in_live_view show_posted
on_view_frame w = in_live_view (λ v. show_posted v.posted v) w

-- `OnDestroy` of the view: the frames in its queue are deleted.
unfoldable pub on_view_destroy : FullscreenView → FullscreenView
on_view_destroy v = record v { alive = false; posted = [] }

unfoldable pub toggle_scale_mode : Window → Outcome
toggle_scale_mode w =
    let original = not w.original_size in
    let follow : Option FullscreenView = elim (live_view w.fullscreen_view) [
      | none ↦ w.fullscreen_view
      | some v ↦ some (record v { original_size = original; frame_dirty = true })
    ] in
    (
      record w { original_size = original; frame_dirty = true; fullscreen_view = follow },
      scale_mode_changed original ∷ [],
    )

-- What Windows answers when a fullscreen window is to be made: whether the monitor and the parent
-- are found, and whether `CreateFullscreen` succeeds.
pub record Screen : Type 0 where
  pub monitor_found : Bool
  pub owner_found : Bool
  pub created : Bool

abbrev pub new_view : Window → FullscreenView
new_view w = record {
  alive = true;
  frame = w.frame;
  frame_dirty = elim w.frame [ none ↦ false | some _ ↦ true ];
  original_size = w.original_size;
  input_callback = w.input_callback;
  posted = [];
}

unfoldable pub enter_fullscreen : Screen → Window → Outcome
enter_fullscreen s w =
    if w.fullscreen || not w.alive
    then (w, [])
    else if not s.monitor_found
    then (w, [])
    else if not s.owner_found || not s.created
    then (record w { fullscreen_view = none }, [])
    else (
      record w {
        fullscreen_view = some (new_view w);
        frame = none;
        frame_dirty = false;
        fullscreen = true;
        capture = some fullscreen_window;
      },
      fullscreen_changed true ∷ [],
    )

-- The frame that the view leaves behind, or the window's own.
abbrev frame_left : Option FullscreenView → Option VideoFrameData → Option VideoFrameData
frame_left none own = own
frame_left (some v) own = elim v.frame [ none ↦ own | some f ↦ some f ]

-- The capture ends with the window that has it.
abbrev pub capture_without_view : Option Which → Option Which
capture_without_view none = none
capture_without_view (some main_window) = some main_window
capture_without_view (some fullscreen_window) = none

-- `DestroyWindow` deletes the frames that are still in the queue of the view (`on_view_destroy`), behind the
-- move of the frame that it shows; then the view itself goes.
unfoldable pub exit_fullscreen : Window → Outcome
exit_fullscreen w = if not w.fullscreen || not w.alive then (w, []) else (
  record w {
    fullscreen = false;
    frame = frame_left w.fullscreen_view w.frame;
    fullscreen_view = none;
    frame_dirty = true;
    capture = capture_without_view w.capture;
  },
  fullscreen_changed false ∷ [],
)

unfoldable pub toggle_fullscreen : Screen → Window → Outcome
toggle_fullscreen s w = if w.fullscreen then exit_fullscreen w else enter_fullscreen s w

-- `OnClose`, on the window that is closed; the last case is left to the base class.
unfoldable pub on_close : Which → Window → Outcome
on_close fullscreen_window w = exit_fullscreen w
on_close main_window w = if w.fullscreen then exit_fullscreen w else (w, [])
