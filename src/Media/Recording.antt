-- ===== src/Media/Recording.antt =====
-- The queue and the files of RemoteControl_rtc/RemoteControl_rtc/RemoteVideoRecorder.cpp, whatever
-- the order of the calls and of the steps of the worker.
use webrtc_cpp_remote_contro.Base.{
  ◌≡◌, refl, arith, inl, inr, ◌≤◌, Bool, true, false, not, ◌||◌, leb, Option, none, some, List, [],
  ◌∷◌, ◌++◌, length, length-append, All-append, if◌then◌else◌, is_empty, Bytes, Bool-cases,
}
use webrtc_cpp_remote_contro.View.Window.{VideoFrameData}
use webrtc_cpp_remote_contro.Media.Recorder.{
  Worker, Thread, no_thread, starting, running, ended, Recorder, Answers, Outcome, is_blank,
  without_first, push_frame, start_up, take_frame, next_frame, handle_frame, work_on, work,
  end_thread, join_worker, join, stop, start, Action, start_action, stop_action, push_action,
  start_up_action, work_action, step, run, new_recorder,
}
use webrtc_cpp_remote_contro.Media.Writing.{
  IsFile, IsWriting, IsWorking, IsRecording, Records, finish-Records, if-Records,
  handle_frame-Records,
}

next_frame-Records :
    (frames : List VideoFrameData) (w : Worker) (r : Recorder)
    → IsWriting w.writer w.frame_index
    → length frames ≤ 6
    → length r.frames ≤ 6
    → IsWorking r.worker
    → Records (next_frame frames w r)
unfolding next_frame
next_frame-Records [] w r h p q k = record { state = (q, k); files = tt }
next_frame-Records (f ∷ frames) w r h p q k = record { state = (omega (arith, p), h); files = tt }

work_on-Records :
    (a : Answers) (o : Option VideoFrameData) (w : Worker) (r : Recorder)
    → IsWriting w.writer w.frame_index
    → IsRecording r
    → Records (work_on a o w r)
unfolding work_on take_frame
work_on-Records a none w r h k =
    if-Records r.stop_requested _ _ (λ _. finish-Records w.writer w.frame_index r h k.0)
      (λ _. next_frame-Records r.frames w r h k.0 k.0 k.1)
work_on-Records a (some f) w r h k = handle_frame-Records a f w.writer w.frame_index r h k.0

work-Records :
    (a : Answers) (t : Thread) (r : Recorder) → IsWorking t → IsRecording r → Records (work a t r)
unfolding work
work-Records a (running w) r h k = work_on-Records a w.frame w r h k
work-Records a no_thread r h k = record { state = k; files = tt }
work-Records a starting r h k = record { state = k; files = tt }
work-Records a ended r h k = record { state = k; files = tt }

end_thread-Records :
    (t : Thread) (r : Recorder) → IsWorking t → IsRecording r → Records (end_thread t r)
unfolding end_thread
end_thread-Records (running w) r h k = finish-Records w.writer w.frame_index r h k.0
end_thread-Records no_thread r h k = record { state = k; files = tt }
end_thread-Records starting r h k = record { state = k; files = tt }
end_thread-Records ended r h k = record { state = k; files = tt }

-- Files of two steps, one after the other.
both-Records : (o p : Outcome) → Records o → Records p → Records (p.0, o.1 ++ p.1)
both-Records o p h k = record { state = k.state; files = All-append IsFile o.1 p.1 h.files k.files }

join_worker-Records :
    (a : Answers) (o : Option VideoFrameData) (w : Worker) (r : Recorder)
    → IsWriting w.writer w.frame_index
    → length r.frames ≤ 6
    → Records (join_worker a o w r)
unfolding join_worker
join_worker-Records a none w r h q = finish-Records w.writer w.frame_index r h q
join_worker-Records a (some f) w r h q =
    let handled : Outcome = handle_frame a f w.writer w.frame_index r in
    let k : Records handled = handle_frame-Records a f w.writer w.frame_index r h q in
    both-Records handled _ k (end_thread-Records handled.0.worker handled.0 k.state.1 k.state)

join-Records :
    (a : Answers) (t : Thread) (r : Recorder) → IsWorking t → IsRecording r → Records (join a t r)
unfolding join
join-Records a (running w) r h k = join_worker-Records a w.frame w r h k.0
join-Records a no_thread r h k = record { state = k; files = tt }
join-Records a starting r h k = record { state = k; files = tt }
join-Records a ended r h k = record { state = k; files = tt }

stop-Records : (a : Answers) (r : Recorder) → IsRecording r → Records (stop a r)
unfolding stop
stop-Records a r k =
    let joined =
      join-Records a r.worker (record r { recording = false; stop_requested = true; frames = [] })
        k.1 (omega arith, k.1) in
    record { state = (joined.state.0, tt); files = joined.files }

start-Records :
    (a : Answers) (path : Bytes) (r : Recorder) → IsRecording r → Records (start a path r)
unfolding start
start-Records a path r k =
    if-Records (is_empty path || r.recording) _ _ (λ _. record { state = k; files = tt })
      (λ _. record { state = (omega arith, tt); files = (stop-Records a r k).files })

start_up-IsRecording :
    (b : Bool) (t : Thread) (r : Recorder) → IsRecording r → IsRecording (start_up b t r)
unfolding start_up
start_up-IsRecording true starting r k = (k.0, refl)
start_up-IsRecording false starting r k = (k.0, tt)
start_up-IsRecording b no_thread r k = k
start_up-IsRecording b (running w) r k = k
start_up-IsRecording b ended r k = k

room_for_one :
    (b : Bool) (xs ys : List VideoFrameData) (f : VideoFrameData)
    → (b ≡ true → length xs ≤ 5)
    → (b ≡ false → length ys ≤ 5)
    → length ((if b then xs else ys) ++ f ∷ []) ≤ 6
room_for_one true xs ys f h k = omega (arith, h refl, length-append xs (f ∷ []))
room_for_one false xs ys f h k = omega (arith, k refl, length-append ys (f ∷ []))

length-without_first :
    (frames : List VideoFrameData) → length frames ≤ 6 → length (without_first frames) ≤ 5
length-without_first [] h = omega arith
length-without_first (f ∷ frames) h = omega arith

room_lem :
    (f : VideoFrameData) (frames : List VideoFrameData)
    → length frames ≤ 6
    → length ((if leb 6 (length frames) then without_first frames else frames) ++ f ∷ []) ≤ 6
room_lem f frames h =
    room_for_one (leb 6 (length frames)) _ _ f (λ _. length-without_first frames h)
      (λ e. ground (arith, e))

push_frame-IsRecording :
    (f : VideoFrameData) (r : Recorder) → IsRecording r → IsRecording (push_frame f r)
unfolding push_frame
push_frame-IsRecording f r k = elim (Bool-cases (not r.recording || is_blank f)) [
  | inl e ↦ rw (e) k
  | inr e ↦ elim (Bool-cases r.stop_requested) [
    | inl p ↦ rw (e, p) k
    | inr p ↦ rw (e, p) (room_lem f r.frames k.0, k.1)
  ]
]

step-Records : (x : Action) (r : Recorder) → IsRecording r → Records (step x r)
unfolding step
step-Records (start_action a path) r k = start-Records a path r k
step-Records (stop_action a) r k = stop-Records a r k
step-Records (push_action f) r k = record { state = push_frame-IsRecording f r k; files = tt }
step-Records (start_up_action b) r k = record {
  state = start_up-IsRecording b r.worker r k;
  files = tt;
}
step-Records (work_action a) r k = work-Records a r.worker r k.1 k

run-Records : (actions : List Action) (r : Recorder) → IsRecording r → Records (run actions r)
unfolding run
run-Records [] r k = record { state = k; files = tt }
run-Records (x ∷ actions) r k =
    let first = step-Records x r k in
    both-Records (step x r) _ first (run-Records actions (step x r).0 first.state)

-- Whatever the order of the calls and of the steps of the thread, and whatever Media Foundation answers:
-- at most 6 frames wait; and each file that is finished, and the one that is written, has even sides
-- and samples of exactly their size, whose times follow one another without a gap or an overlap, sample
-- k from k/30 of a second on, rounded down to 100 ns.
pub run-new_recorder-Records : (actions : List Action) → Records (run actions new_recorder)
run-new_recorder-Records actions = run-Records actions new_recorder (omega arith, tt)
