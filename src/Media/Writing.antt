-- ===== src/Media/Writing.antt =====
-- What a round of the worker of RemoteControl_rtc/RemoteControl_rtc/RemoteVideoRecorder.cpp does to the
-- file.
use mathlib.Core.Path.{subst}
use webrtc_cpp_remote_contro.Base.{
  ◌≡◌, refl, sym, ap, arith, ◌∙◌, ℕ, zero, suc, ◌+◌, ◌-◌, ◌*◌, ◌%◌, ◌≤◌, Bool, true, false, not,
  ◌||◌, ◌&&◌, ◌==◌, ltb, Option, none, some, List, [], ◌∷◌, ◌++◌, length, length-append, take, All,
  All-append, if◌then◌else◌, Bytes,
}
use webrtc_cpp_remote_contro.View.Window.{VideoFrameData}
use webrtc_cpp_remote_contro.Media.Recorder.{
  Sample, Mp4, Thread, running, Recorder, Answers, Outcome, file_of, finish, time_of, sample_of,
  write_sample, is_odd, open_writer, made_writer, handle_frame,
}

-- The samples follow one another without a gap or an overlap, from the index of the first one on: sample k begins at
-- k/30 of a second, rounded down, so no error adds up.
abbrev pub IsTimed : ℕ → List Sample → Type 0
IsTimed n [] = Unit {0}
IsTimed n (s ∷ samples) =
    (s.sample_time ≡ time_of n)
    × (s.sample_time + s.duration ≡ time_of (n + 1))
    × IsTimed (n + 1) samples

-- A file that a player shows at 30 frames a second: sides that H.264 takes, and samples of their size.
pub record IsFile (m : Mp4) : Type 0 where
  pub even_width : m.width % 2 ≡ 0
  pub even_height : m.height % 2 ≡ 0
  pub timed : IsTimed 0 m.samples
  pub full : All (λ s. length s.bytes ≡ m.width * 4 * m.height) m.samples

abbrev pub IsWriting : Option Mp4 → ℕ → Type 0
IsWriting none n = n ≡ 0
IsWriting (some m) n = IsFile m × (n ≡ length m.samples)

abbrev pub IsWorking : Thread → Type 0
IsWorking (running w) = IsWriting w.writer w.frame_index
IsWorking _ = Unit {0}

abbrev pub IsRecording : Recorder → Type 0
IsRecording r = (length r.frames ≤ 6) × IsWorking r.worker

-- So is the recorder after a step, and so is each file that was finished.
pub record Records (o : Outcome) : Type 0 where
  pub state : IsRecording o.0
  pub files : All IsFile o.1

append-IsTimed :
    (n : ℕ) (samples : List Sample) (s : Sample)
    → IsTimed n samples
    → s.sample_time ≡ time_of (n + length samples)
    → s.sample_time + s.duration ≡ time_of (n + length samples + 1)
    → IsTimed n (samples ++ s ∷ [])
append-IsTimed n [] s t p q =
    (p ∙ ap (λ k. time_of k) (omega arith), q ∙ ap (λ k. time_of k) (omega arith), tt)
append-IsTimed n (x ∷ samples) s t p q = (
  t.0,
  t.1,
  append-IsTimed (n + 1) samples s t.2 (p ∙ ap (λ k. time_of k) (omega arith))
      (q ∙ ap (λ k. time_of k) (omega arith)),
)

length-take :
    {A : Type 0} (n : ℕ) (xs : List A) → ltb (length xs) n ≡ false → length (take n xs) ≡ n
length-take zero xs e = refl
length-take (suc n) [] e = ground (arith, e)
length-take (suc n) (x ∷ xs) e = ap suc (length-take n xs (ground (arith, e)))

time_grows : (n : ℕ) → time_of n + (time_of (n + 1) - time_of n) ≡ time_of (n + 1)
time_grows n = omega arith

pub file_of-IsFile :
    (writer : Option Mp4) (n : ℕ) → IsWriting writer n → All IsFile (file_of writer)
file_of-IsFile none n h = tt
file_of-IsFile (some m) n h = (h.0, tt)

pub finish-Records :
    (writer : Option Mp4) (n : ℕ) (r : Recorder)
    → IsWriting writer n
    → length r.frames ≤ 6
    → Records (finish writer r)
unfolding finish
finish-Records writer n r h q = record { state = (q, tt); files = file_of-IsFile writer n h }

-- A file with one sample more.
longer-IsFile :
    (m : Mp4) (f : VideoFrameData)
    → IsFile m
    → ltb (length f.pixels) (m.width * 4 * m.height) ≡ false
    → IsFile (record m {
      samples = m.samples ++ sample_of (length m.samples) (m.width * 4 * m.height) f ∷ [];
    })
unfolding sample_of
longer-IsFile m f h e = record {
  even_width = h.even_width;
  even_height = h.even_height;
  timed =
      append-IsTimed 0 m.samples (sample_of (length m.samples) (m.width * 4 * m.height) f) h.timed
        (ap (λ k. time_of k) (omega arith))
        (time_grows (length m.samples) ∙ ap (λ k. time_of k) (omega arith));
  full =
      All-append (λ s. length s.bytes ≡ m.width * 4 * m.height) m.samples _ h.full
        (length-take (m.width * 4 * m.height) f.pixels e, tt);
}

skip-Records :
    (m : Mp4) (n : ℕ) (r : Recorder)
    → IsWriting (some m) n
    → length r.frames ≤ 6
    → Records (
      record r { worker = running (record { frame = none; writer = some m; frame_index = n }) },
      [],
    )
skip-Records m n r h q = record { state = (q, h); files = tt }

longer-Records :
    (f : VideoFrameData) (m : Mp4) (n : ℕ) (r : Recorder)
    → IsWriting (some m) n
    → length r.frames ≤ 6
    → ltb (length f.pixels) (m.width * 4 * m.height) ≡ false
    → Records (
      record r {
        worker = running (record {
          frame = none;
          writer =
              some
                (record m { samples = m.samples ++ sample_of n (m.width * 4 * m.height) f ∷ [] });
          frame_index = n + 1;
        });
      },
      [],
    )
longer-Records f m n r h q e = record {
  state = (
    q,
    (
      subst
          (λ k.
            IsFile
              (record m { samples = m.samples ++ sample_of k (m.width * 4 * m.height) f ∷ [] }))
          (sym h.1) (longer-IsFile m f h.0 e),
      omega (arith, h.1, length-append m.samples (sample_of n (m.width * 4 * m.height) f ∷ [])),
    ),
  );
  files = tt;
}

pub if-Records :
    (b : Bool) (o p : Outcome)
    → (b ≡ true → Records o)
    → (b ≡ false → Records p)
    → Records (if b then o else p)
if-Records true o p h k = h refl
if-Records false o p h k = k refl

write_sample-Records :
    (a : Answers) (f : VideoFrameData) (m : Mp4) (n : ℕ) (r : Recorder)
    → IsWriting (some m) n
    → length r.frames ≤ 6
    → Records (write_sample a f m n r)
unfolding write_sample
write_sample-Records a f m n r h q =
    if-Records (not (f.width == m.width && f.height == m.height)) _ _ (λ _. skip-Records m n r h q)
      (λ _.
        if-Records (ltb (length f.pixels) (m.width * 4 * m.height)) _ _
          (λ _. skip-Records m n r h q)
          (λ e.
            if-Records (not a.buffer_made || not a.sample_made || not a.sample_written) _ _
              (λ _. finish-Records (some m) n r h q) (λ _. longer-Records f m n r h q e)))

new-IsFile :
    (path : Bytes) (width height : ℕ)
    → is_odd width ≡ false
    → is_odd height ≡ false
    → IsFile (record { path = path; width = width; height = height; samples = [] })
new-IsFile path width height e e' = record {
  even_width = ground (arith, e);
  even_height = ground (arith, e');
  timed = tt;
  full = tt;
}

made_writer-Records :
    (a : Answers) (o : Option Bool) (f : VideoFrameData) (m : Mp4) (n : ℕ) (r : Recorder)
    → IsWriting (some m) n
    → length r.frames ≤ 6
    → Records (made_writer a o f m n r)
unfolding made_writer
made_writer-Records a none f m n r h q = finish-Records none 0 r refl q
made_writer-Records a (some false) f m n r h q = finish-Records (some m) n r h q
made_writer-Records a (some true) f m n r h q = write_sample-Records a f m n r h q

open_writer-Records :
    (a : Answers) (f : VideoFrameData) (n : ℕ) (r : Recorder)
    → n ≡ 0
    → length r.frames ≤ 6
    → Records (open_writer a f n r)
unfolding open_writer
open_writer-Records a f n r h q =
    if-Records (f.width == 0 || f.height == 0 || is_odd f.width || is_odd f.height) _ _
      (λ _. finish-Records none 0 r refl q)
      (λ e.
        made_writer-Records a a.writer f _ n r
          (new-IsFile r.path f.width f.height (ground (arith, e)) (ground (arith, e)), h) q)

pub handle_frame-Records :
    (a : Answers) (f : VideoFrameData) (writer : Option Mp4) (n : ℕ) (r : Recorder)
    → IsWriting writer n
    → length r.frames ≤ 6
    → Records (handle_frame a f writer n r)
unfolding handle_frame
handle_frame-Records a f none n r h q = open_writer-Records a f n r h q
handle_frame-Records a f (some m) n r h q = write_sample-Records a f m n r h q
