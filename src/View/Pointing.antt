-- ===== src/View/Pointing.antt =====
-- From a point of the video window to a point of the controlled screen: NormalizeVideoPoint, and
-- AbsoluteCoordinate of RemoteControl_rtc/RemoteControl_rtc/InputInjectorWin.cpp.
use webrtc_cpp_remote_contro.Base.{ℕ, ◌+◌, ◌-◌, ◌*◌, ◌^◌, ◌≤◌, ◌<◌, ◌≡◌, ◌∙◌, arith, ◌⊎◌}
use webrtc_cpp_remote_contro.Base.Int.{ℤ, pos, pos_part, sub_ℕ, ◌+ℤ◌, ◌-ℤ◌}
use webrtc_cpp_remote_contro.View.Geometry.{at_least_one, offset, unsigned_short, normalize}
use webrtc_cpp_remote_contro.Control.Injector.{
  System, absolute_coordinate, clamp_absolute, at_least_two,
}
use native.Mathlib.Nat.{lt_of_mul-lt-mul_right, mul-le-mul_right}

-- The documented `MulDiv` where its factors are not negative and the first is at most the divisor:
-- the quotient, rounded to the nearest integer.
abbrev pub IsMulDiv : (ℤ → ℤ → ℤ → ℤ) → Type 0
IsMulDiv f =
    (a b c : ℕ)
    → 0 < c
    → a ≤ c
    → b < 2 ^ 31
    → c < 2 ^ 31
    → (m : ℕ) × (f (pos a) (pos b) (pos c) ≡ pos m)
      × (2 * (a * b) ≤ 2 * (m * c) + c)
      × (2 * (m * c) ≤ 2 * (a * b) + c)

-- The pixel that the point is held to, counted from the edge.
offset-inside :
    (point start : ℤ) (size : ℕ)
    → 0 < size
    → (k : ℕ) × (k < size) × (offset point start size ≡ pos k)
unfolding offset ◌+ℤ◌ ◌-ℤ◌
offset-inside point start size h = (pos_part (offset point start size), ground arith, ground arith)

-- A pixel of the rectangle is its own.
offset-pixel : (start : ℤ) (k size : ℕ) → k < size → offset (start +ℤ pos k) start size ≡ pos k
unfolding offset ◌+ℤ◌ ◌-ℤ◌
offset-pixel start k size h = ground arith

scaled-le : (m c k b : ℕ) → 0 < c → k ≤ c → 2 * (m * c) ≤ 2 * (k * b) + c → m ≤ b
scaled-le m c k b p q r =
    let q' : m * c < (b + 1) * c = omega (arith, mul-le-mul_right b q) in
    omega (arith, lt_of_mul-lt-mul_right c q')

-- Scaled up to 65535 and back, with both results rounded, a pixel is found again.
rescaled :
    (k m r c : ℕ)
    → 0 < c
    → c < 65535
    → 2 * (k * 65535) ≤ 2 * (m * c) + c
    → 2 * (m * c) ≤ 2 * (k * 65535) + c
    → 2 * (m * c) ≤ 2 * (r * 65535) + 65535
    → 2 * (r * 65535) ≤ 2 * (m * c) + 65535
    → r ≡ k
rescaled k m r c p q h1 h2 h3 h4 = omega arith

abbrev span : ℕ → ℕ
span size = at_least_one (sub_ℕ size 1)

span_lem :
    (k size : ℕ)
    → k < size
    → (0 < span size) × (k ≤ span size) × (span size ≤ size) × ((span size ≡ size - 1) ⊎ (k ≡ 0))
unfolding at_least_one
span_lem k size h = ground arith

span_wide : (size : ℕ) → 2 ≤ size → span size ≡ size - 1
unfolding at_least_one
span_wide size h = ground arith

offset-before : (start : ℤ) (size d : ℕ) → 0 < size → offset (start -ℤ pos d) start size ≡ pos 0
unfolding offset ◌+ℤ◌ ◌-ℤ◌
offset-before start size d h = ground arith

offset-behind :
    (start : ℤ) (size d : ℕ)
    → 0 < size
    → offset (start +ℤ pos (size - 1 + d)) start size ≡ pos (size - 1)
unfolding offset ◌+ℤ◌ ◌-ℤ◌
offset-behind start size d h = ground arith

width_less_one : (width : ℕ) → 2 ≤ width → at_least_two (pos width) -ℤ pos 1 ≡ pos (width - 1)
unfolding ◌-ℤ◌
width_less_one width h = ground arith

nearest_zero : (m c : ℕ) → 0 < c → 2 * (m * c) ≤ 2 * (0 * 65535) + c → m ≡ 0
nearest_zero m c p h = grind arith

nearest_last : (m c : ℕ) → 0 < c → m ≤ 65535 → 2 * (c * 65535) ≤ 2 * (m * c) + c → m ≡ 65535
nearest_last m c p q h =
    let q' : 65535 * c < (m + 1) * c = omega arith in omega (arith, lt_of_mul-lt-mul_right c q')

module _ (mul_div : ℤ → ℤ → ℤ → ℤ) (md : IsMulDiv mul_div) where
  -- What a pixel is normalized to, as a number.
  scaled :
      (k size : ℕ)
      → k < size
      → size < 2 ^ 31
      → (m : ℕ) × (unsigned_short (mul_div (pos k) (pos 65535) (pos (span size))) ≡ m)
        × (m ≤ 65535)
        × (2 * (k * 65535) ≤ 2 * (m * span size) + span size)
        × (2 * (m * span size) ≤ 2 * (k * 65535) + span size)
  unfolding unsigned_short
  scaled k size h b =
      let s = span_lem k size h in
      let (m, e, low, high) = md k 65535 (span size) s.0 s.1 (omega arith) (omega arith) in
      let small = scaled-le m (span size) k 65535 s.0 s.1 high in
      (m, ground (arith, e), small, low, high)

  normalize-scaled :
      (start : ℤ) (k size : ℕ)
      → k < size
      → (point : ℤ) → offset point start size ≡ pos k
      → normalize mul_div point start size
        ≡ unsigned_short (mul_div (pos k) (pos 65535) (pos (span size)))
  unfolding normalize
  normalize-scaled start k size h point e = rw e

  -- Points on or left of the left edge of the video are normalized to 0, and points on or right of
  -- its last column to 65535, for a video of at least two columns; and so for the rows.
  pub normalize_outside :
      (start : ℤ) (size : ℕ)
      → 2 ≤ size
      → size < 2 ^ 31
      → (d : ℕ)
      → (normalize mul_div (start -ℤ pos d) start size ≡ 0)
        × (normalize mul_div (start +ℤ pos (size - 1 + d)) start size ≡ 65535)
  normalize_outside start size h b d =
      let (m, e, _, _, high) = scaled 0 size (omega arith) b in
      let (n, e', small, low, _) = scaled (size - 1) size (omega arith) b in
      let wide = span_wide size h in
      let positive : 0 < span size = omega arith in
      let low' : 2 * (span size * 65535) ≤ 2 * (n * span size) + span size =
        rw wide (rw wide at low) in
      (
        normalize-scaled start 0 size (omega arith) (start -ℤ pos d)
              (offset-before start size d (omega arith))
            ∙ e
            ∙ nearest_zero m (span size) positive high,
        normalize-scaled start (size - 1) size (omega arith) (start +ℤ pos (size - 1 + d))
              (offset-behind start size d (omega arith))
            ∙ e'
            ∙ nearest_last n (span size) positive small low',
      )

-- A click on column k of a video that is shown as wide as the controlled screen is injected at
-- column k of the controlled primary screen, whatever the place of the video and of the primary
-- screen in the virtual desktop; for screens of 2 to 65535 columns, and so for the rows.
pub pointed_pixel_arrives :
    (mul_div : ℤ → ℤ → ℤ → ℤ) (w : System) (width k : ℕ) (start virtual_start virtual_size : ℤ)
    → IsMulDiv mul_div
    → IsMulDiv w.mul_div
    → 2 ≤ width
    → width ≤ 65535
    → k < width
    → absolute_coordinate w
        (normalize mul_div (start +ℤ pos k) start width)
        (pos width)
        virtual_start
        virtual_size
      ≡ clamp_absolute
          (w.mul_div (pos k -ℤ virtual_start) (pos 65535) (at_least_two virtual_size -ℤ pos 1))
unfolding absolute_coordinate
pointed_pixel_arrives mul_div w width k start vs size md md' two most h =
    let (m, e, small, low, high) = scaled mul_div md k width h (omega arith) in
    let (r, e', low', high') =
      md' m (width - 1) 65535 (omega arith) small (omega arith) (omega arith) in
    let wide = span_wide width two in
    let normal =
      normalize-scaled mul_div md start k width h (start +ℤ pos k) (offset-pixel start k width h)
      ∙ e in
    let low'' : 2 * (k * 65535) ≤ 2 * (m * (width - 1)) + (width - 1) = rw wide at low in
    let high'' : 2 * (m * (width - 1)) ≤ 2 * (k * 65535) + (width - 1) = rw wide at high in
    let found = rescaled k m r (width - 1) (omega arith) (omega arith) low'' high'' low' high' in
    rw normal (rw (width_less_one width two) (rw e' (rw found)))
