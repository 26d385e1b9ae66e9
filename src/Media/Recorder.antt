-- ===== src/Media/Recorder.antt =====
-- The recorder of RemoteControl_rtc/RemoteControl_rtc/RemoteVideoRecorder.cpp: the calls of the other
-- threads and the steps of its worker, in any order. Media Foundation answers by arguments.
use webrtc_cpp_remote_contro.Base.{
  ℕ, ◌+◌, ◌-◌, ◌*◌, ◌/◌, ◌%◌, Bool, true, false, not, ◌||◌, ◌&&◌, ◌==◌, ltb, leb, Option, none,
  some, List, [], ◌∷◌, ◌++◌, length, take, Bytes, if◌then◌else◌, is_empty,
}
use webrtc_cpp_remote_contro.View.Window.{VideoFrameData}

-- A sample that was written: times are in units of 100 ns. A product for a frame index that LONGLONG
-- does not hold is out of reach: it would take 900 billion frames.
pub record Sample : Type 0 where
  pub bytes : Bytes
  pub sample_time : ℕ
  pub duration : ℕ

-- The file of a writer.
pub record Mp4 : Type 0 where
  pub path : Bytes
  pub width : ℕ
  pub height : ℕ
  pub samples : List Sample

-- The variables of `Run`. `frame` is the one that was taken from the queue. The variables `width` and
-- `height` are those of the writer, as soon as there is one.
pub record Worker : Type 0 where
  pub frame : Option VideoFrameData
  pub writer : Option Mp4
  pub frame_index : ℕ

-- `worker_`: a thread that has ended may still have to be joined.
pub data Thread : Type 0 where
  no_thread : Thread
  starting : Thread
  running : Worker → Thread
  ended : Thread

pub record Recorder : Type 0 where
  pub path : Bytes
  pub recording : Bool
  pub stop_requested : Bool
  pub frames : List VideoFrameData
  pub worker : Thread

-- `writer`: `none` is a `CreateMp4Writer` that makes no writer, `some false` one that fails on the
-- writer that it has made. `buffer_made` and `sample_made` also stand for the calls on the buffer and
-- on the sample. A frame has less than 2^32 bytes, so the casts to DWORD keep their sizes.
pub record Answers : Type 0 where
  pub writer : Option Bool
  pub buffer_made : Bool
  pub sample_made : Bool
  pub sample_written : Bool

-- A recorder, and the files that were finished on the way.
abbrev pub Outcome : Type 0
Outcome = Recorder × List Mp4

abbrev pub is_blank : VideoFrameData → Bool
is_blank f = f.width == 0 || f.height == 0 || is_empty f.pixels

abbrev pub without_first : List VideoFrameData → List VideoFrameData
without_first [] = []
without_first (f ∷ frames) = frames

unfoldable pub push_frame : VideoFrameData → Recorder → Recorder
push_frame f r =
    let room = if leb 6 (length r.frames) then without_first r.frames else r.frames in
    if not r.recording || is_blank f
    then r
    else if r.stop_requested
    then r
    else record r { frames = room ++ f ∷ [] }

abbrev pub file_of : Option Mp4 → List Mp4
file_of none = []
file_of (some m) = m ∷ []

-- What follows the loop of `Run`.
unfoldable pub finish : Option Mp4 → Recorder → Outcome
finish writer r = (record r { recording = false; worker = ended }, file_of writer)

-- The part of `Run` before its loop.
unfoldable pub start_up : Bool → Thread → Recorder → Recorder
start_up started starting r =
    if started
    then record r { worker = running (record { frame = none; writer = none; frame_index = 0 }) }
    else record r { recording = false; worker = ended }
start_up started _ r = r

unfoldable pub next_frame : List VideoFrameData → Worker → Recorder → Outcome
next_frame [] w r = (r, [])
next_frame (f ∷ frames) w r =
    (record r { frames = frames; worker = running (record w { frame = some f }) }, [])

-- The block of the loop that holds the mutex; without a frame and without a request the thread waits.
unfoldable pub take_frame : Worker → Recorder → Outcome
unfolding finish next_frame
take_frame w r = if r.stop_requested then finish w.writer r else next_frame r.frames w r

abbrev pub time_of : ℕ → ℕ
time_of frame_index = frame_index * 10000000 / 30

unfoldable pub sample_of : ℕ → ℕ → VideoFrameData → Sample
sample_of frame_index frame_bytes f = record {
  bytes = take frame_bytes f.pixels;
  sample_time = time_of frame_index;
  duration = time_of (frame_index + 1) - time_of frame_index;
}

-- The rest of a round, with a writer.
unfoldable pub write_sample : Answers → VideoFrameData → Mp4 → ℕ → Recorder → Outcome
unfolding finish sample_of
write_sample a f m frame_index r =
    let frame_bytes = m.width * 4 * m.height in
    let skipped : Worker = record { frame = none; writer = some m; frame_index = frame_index } in
    let longer : Mp4 = record m {
      samples = m.samples ++ sample_of frame_index frame_bytes f ∷ [];
    } in
    let written : Worker = record {
      frame = none;
      writer = some longer;
      frame_index = frame_index + 1;
    } in
    if not (f.width == m.width && f.height == m.height)
    then (record r { worker = running skipped }, [])
    else if ltb (length f.pixels) frame_bytes
    then (record r { worker = running skipped }, [])
    else if not a.buffer_made || not a.sample_made || not a.sample_written
    then finish (some m) r
    else (record r { worker = running written }, [])

abbrev pub is_odd : ℕ → Bool
is_odd n = not (n % 2 == 0)

unfoldable pub made_writer : Answers → Option Bool → VideoFrameData → Mp4 → ℕ → Recorder → Outcome
unfolding finish write_sample
made_writer a none f m frame_index r = finish none r
made_writer a (some false) f m frame_index r = finish (some m) r
made_writer a (some true) f m frame_index r = write_sample a f m frame_index r

-- The first frame makes the writer.
unfoldable pub open_writer : Answers → VideoFrameData → ℕ → Recorder → Outcome
unfolding finish made_writer
open_writer a f frame_index r =
    let m : Mp4 = record { path = r.path; width = f.width; height = f.height; samples = [] } in
    if f.width == 0 || f.height == 0 || is_odd f.width || is_odd f.height
    then finish none r
    else made_writer a a.writer f m frame_index r

unfoldable pub handle_frame : Answers → VideoFrameData → Option Mp4 → ℕ → Recorder → Outcome
unfolding open_writer write_sample
handle_frame a f none frame_index r = open_writer a f frame_index r
handle_frame a f (some m) frame_index r = write_sample a f m frame_index r

-- The next part of a round: the frame that was taken, or taking one.
unfoldable pub work_on : Answers → Option VideoFrameData → Worker → Recorder → Outcome
unfolding handle_frame take_frame
work_on a none w r = take_frame w r
work_on a (some f) w r = handle_frame a f w.writer w.frame_index r

unfoldable pub work : Answers → Thread → Recorder → Outcome
unfolding work_on
work a (running w) r = work_on a w.frame w r
work a _ r = (r, [])

unfoldable pub end_thread : Thread → Recorder → Outcome
unfolding finish
end_thread (running w) r = finish w.writer r
end_thread _ r = (r, [])

-- `worker_.join()` after the request to stop: a frame that was taken is written, then the loop ends.
unfoldable pub join_worker : Answers → Option VideoFrameData → Worker → Recorder → Outcome
unfolding handle_frame end_thread finish
join_worker a none w r = finish w.writer r
join_worker a (some f) w r =
    let handled = handle_frame a f w.writer w.frame_index r in
    let last = end_thread handled.0.worker handled.0 in (last.0, handled.1 ++ last.1)

unfoldable pub join : Answers → Thread → Recorder → Outcome
unfolding join_worker
join a (running w) r = join_worker a w.frame w r
join a _ r = (r, [])

unfoldable pub stop : Answers → Recorder → Outcome
unfolding join
stop a r =
    let joined =
      join a r.worker (record r { recording = false; stop_requested = true; frames = [] }) in
    (record joined.0 { recording = false; worker = no_thread }, joined.1)

unfoldable pub start : Answers → Bytes → Recorder → Outcome
unfolding stop
start a path r =
    let stopped = stop a r in
    if is_empty path || r.recording then (r, []) else (
      record stopped.0 {
        path = path;
        stop_requested = false;
        frames = [];
        recording = true;
        worker = starting;
      },
      stopped.1,
    )

pub data Action : Type 0 where
  start_action : Answers → Bytes → Action
  stop_action : Answers → Action
  push_action : VideoFrameData → Action
  start_up_action : Bool → Action
  work_action : Answers → Action

unfoldable pub step : Action → Recorder → Outcome
unfolding start stop push_frame start_up work
step (start_action a path) r = start a path r
step (stop_action a) r = stop a r
step (push_action f) r = (push_frame f r, [])
step (start_up_action started) r = (start_up started r.worker r, [])
step (work_action a) r = work a r.worker r

unfoldable pub run : List Action → Recorder → Outcome
unfolding step
run [] r = (r, [])
run (x ∷ actions) r =
    let first = step x r in let rest = run actions first.0 in (rest.0, first.1 ++ rest.1)

abbrev pub new_recorder : Recorder
new_recorder = record {
  path = [];
  recording = false;
  stop_requested = false;
  frames = [];
  worker = no_thread;
}
