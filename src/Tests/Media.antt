-- ===== src/Tests/Media.antt =====
-- The recorder on two frames.
use webrtc_cpp_remote_contro.Base.{◌≡◌, refl, true, some, List, [], ◌∷◌, ◌++◌, Bytes, codes}
use webrtc_cpp_remote_contro.View.Window.{VideoFrameData}
use webrtc_cpp_remote_contro.Media.Recorder.{
  Answers, Action, start_action, stop_action, push_action, start_up_action, work_action, start,
  stop, join, join_worker, push_frame, start_up, work, work_on, take_frame, next_frame,
  handle_frame, open_writer, made_writer, write_sample, sample_of, finish, end_thread, step, run,
  new_recorder,
}
use webrtc_cpp_remote_contro.Media.Writing.{Records}
use webrtc_cpp_remote_contro.Media.Recording.{run-new_recorder-Records}

abbrev fine : Answers
fine = record { writer = some true; buffer_made = true; sample_made = true; sample_written = true }

abbrev grey : Bytes
grey = 90 ∷ 90 ∷ 90 ∷ 255 ∷ []

abbrev square : VideoFrameData
square = record { width = 2; height = 2; pixels = grey ++ grey ++ grey ++ grey }

abbrev clip : Bytes
clip = codes "clip.mp4"

-- The second frame is taken when the recorder is stopped, the third one still waits.
abbrev actions : List Action
actions =
    start_action fine clip
    ∷ start_up_action true
    ∷ push_action square
    ∷ work_action fine
    ∷ work_action fine
    ∷ push_action square
    ∷ work_action fine
    ∷ push_action square
    ∷ stop_action fine
    ∷ []

two_samples :
    (run actions new_recorder).1
    ≡ record {
      path = clip;
      width = 2;
      height = 2;
      samples =
          record { bytes = square.pixels; sample_time = 0; duration = 333333 }
          ∷ record { bytes = square.pixels; sample_time = 333333; duration = 333333 }
          ∷ [];
    }
      ∷ []
unfolding run step start stop join join_worker push_frame start_up work work_on take_frame
    next_frame handle_frame open_writer made_writer write_sample sample_of finish end_thread
two_samples = refl

run-new_recorder-Records_example : Records (run actions new_recorder)
run-new_recorder-Records_example = run-new_recorder-Records actions
