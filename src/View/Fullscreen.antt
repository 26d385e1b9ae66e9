-- ===== src/View/Fullscreen.antt =====
-- What becomes of the frames while the video window is in the fullscreen mode.
use webrtc_cpp_remote_contro.Base.{
  ◌≡◌, refl, ap, ◌∙◌, arith, true, false, Option, none, some, List, [], ◌∷◌, ◌++◌,
}
use webrtc_cpp_remote_contro.View.Window.{
  Window, FullscreenView, Screen, VideoFrameData, fullscreen_window, newest_frame, new_view,
  on_frame, enter_fullscreen, exit_fullscreen, in_live_view, post_view_frame, show_posted,
  on_view_frame,
}

-- What may happen to frames: those that the main window handles, each with those that wait behind it;
-- one that is posted to the view's window, and that the view handles what is in its queue.
pub data FrameEvent : Type 0 where
  main_handles : VideoFrameData → List VideoFrameData → FrameEvent
  posted_to_view : VideoFrameData → FrameEvent
  view_handles : FrameEvent

pub frames : List FrameEvent → Window → Window
frames [] w = w
frames (main_handles f pending ∷ es) w = frames es (on_frame f pending w)
frames (posted_to_view f ∷ es) w = frames es (post_view_frame f w)
frames (view_handles ∷ es) w = frames es (on_view_frame w)

abbrev pub newest_of : Option VideoFrameData → List VideoFrameData → Option VideoFrameData
newest_of shown [] = shown
newest_of shown (f ∷ waiting) = some (newest_frame f waiting)

-- The last of the frames that were handled, given the one that was shown before and those that wait for
-- the view.
unfoldable pub last_frame :
    Option VideoFrameData → List VideoFrameData → List FrameEvent → Option VideoFrameData
last_frame shown waiting [] = shown
last_frame shown waiting (main_handles f pending ∷ es) =
    last_frame (some (newest_frame f pending)) waiting es
last_frame shown waiting (posted_to_view f ∷ es) = last_frame shown (waiting ++ f ∷ []) es
last_frame shown waiting (view_handles ∷ es) = last_frame (newest_of shown waiting) [] es

-- A window in fullscreen mode that shows its frames in the view.
abbrev in_view : Window → FullscreenView → Window
in_view w v = record w { alive = true; frame = none; fullscreen = true; fullscreen_view = some v }

on_frame-in_view :
    (f : VideoFrameData) (pending : List VideoFrameData) (w : Window) (v : FullscreenView)
    → v.alive ≡ true
    → on_frame f pending (in_view w v)
      ≡ in_view w (record v { frame = some (newest_frame f pending); frame_dirty = true })
unfolding on_frame
on_frame-in_view f pending w v l = rw l

in_live_view-in_view :
    (f : FullscreenView → FullscreenView) (w : Window) (v : FullscreenView)
    → v.alive ≡ true
    → in_live_view f (in_view w v) ≡ in_view w (f v)
unfolding in_live_view
in_live_view-in_view f w v l = rw l

show_posted-alive :
    (waiting : List VideoFrameData) (v : FullscreenView) → (show_posted waiting v).alive ≡ v.alive
unfolding show_posted
show_posted-alive [] v = refl
show_posted-alive (f ∷ waiting) v = refl

-- With nothing in the queue the view stays as it is, its empty queue included.
show_posted-last :
    (waiting : List VideoFrameData) (v : FullscreenView) (es : List FrameEvent)
    → v.posted ≡ waiting
    → last_frame (show_posted waiting v).frame (show_posted waiting v).posted es
      ≡ last_frame (newest_of v.frame waiting) [] es
unfolding show_posted
show_posted-last [] v es e = ap (λ q. last_frame v.frame q es) e
show_posted-last (f ∷ waiting) v es e = refl

frames-exit :
    (es : List FrameEvent) (w : Window) (v : FullscreenView)
    → v.alive ≡ true
    → (exit_fullscreen (frames es (in_view w v))).0.frame ≡ last_frame v.frame v.posted es
unfolding frames last_frame post_view_frame on_view_frame
frames-exit [] w v l = unfold exit_fullscreen in ground arith
frames-exit (main_handles f pending ∷ es) w v l =
    ap (λ u. (exit_fullscreen (frames es u)).0.frame) (on_frame-in_view f pending w v l)
    ∙ frames-exit es w (record v { frame = some (newest_frame f pending); frame_dirty = true }) l
frames-exit (posted_to_view f ∷ es) w v l =
    ap (λ u. (exit_fullscreen (frames es u)).0.frame) (in_live_view-in_view _ w v l)
    ∙ frames-exit es w (record v { posted = v.posted ++ f ∷ [] }) l
frames-exit (view_handles ∷ es) w v l =
    ap (λ u. (exit_fullscreen (frames es u)).0.frame) (in_live_view-in_view _ w v l)
    ∙ frames-exit es w (show_posted v.posted v) (show_posted-alive v.posted v ∙ l)
    ∙ show_posted-last v.posted v es refl

enter_fullscreen-in_view :
    (s : Screen) (w : Window)
    → w.alive ≡ true
    → w.fullscreen ≡ false
    → s.monitor_found ≡ true
    → s.owner_found ≡ true
    → s.created ≡ true
    → (v : FullscreenView) × (v.alive ≡ true)
      × (v.frame ≡ w.frame)
      × (v.posted ≡ [])
      × ((c : Window) × ((enter_fullscreen s w).0 ≡ in_view c v))
unfolding enter_fullscreen
enter_fullscreen-in_view s w a f m o c = (
  new_view w,
  refl,
  refl,
  refl,
  (record w { frame_dirty = false; capture = some fullscreen_window }, ground arith),
)

-- After entering the fullscreen mode, any frames that the main window handles, that are posted to the
-- view or that the view handles, and leaving the mode, the main window holds the newest of the frames
-- that were handled or, if none was, the frame that it held before; a frame that still waits for the
-- view is lost. This is for a window that is there and is not in the mode, a monitor and a parent that
-- are found, and a view that can be made.
pub fullscreen-round_trip :
    (s : Screen) (es : List FrameEvent) (w : Window)
    → w.alive ≡ true
    → w.fullscreen ≡ false
    → s.monitor_found ≡ true
    → s.owner_found ≡ true
    → s.created ≡ true
    → (exit_fullscreen (frames es (enter_fullscreen s w).0)).0.frame ≡ last_frame w.frame [] es
fullscreen-round_trip s es w a f m o c =
    let (v, l, fr, empty, (u, e)) = enter_fullscreen-in_view s w a f m o c in
    ap (λ x. (exit_fullscreen (frames es x)).0.frame) e
    ∙ frames-exit es u v l
    ∙ ap (λ x. last_frame x v.posted es) fr
    ∙ ap (λ q. last_frame w.frame q es) empty
