-- ===== src/View/Fit.antt =====
-- Where the fitted video stands in its window: proofs about CalculateVideoRect.
use webrtc_cpp_remote_contro.Base.{
  ℕ, ◌+◌, ◌-◌, ◌*◌, ◌/◌, ◌^◌, ◌≤◌, ◌<◌, ◌≡◌, ◌⊎◌, inl, inr, false, some, ltb, ◌==◌, if◌then◌else◌,
  arith, Bool-cases,
}
use webrtc_cpp_remote_contro.Base.Int.{pos}
use webrtc_cpp_remote_contro.View.Geometry.{
  Extent, to_int, at_least_one, fit, margin, centered, calculate_video_rect,
}
use native.Mathlib.Nat.{mul-le-mul_right, mul-le-mul, div-le_self, le_of_mul-le-mul_right}

to_int-small : (n : ℕ) → n < 2 ^ 31 → to_int n ≡ pos n
unfolding to_int
to_int-small n h = ground arith

-- Not empty, and no side as long as 2^15.
pub record IsScreen (e : Extent) : Type 0 where
  pub wide : 0 < e.width
  pub high : 0 < e.height
  pub width_bound : e.width < 2 ^ 15
  pub height_bound : e.height < 2 ^ 15

-- a * b / c, rounded down.
scaled_bounds : (a b c : ℕ) → 0 < c → (a * b / c * c ≤ a * b) × (a * b < a * b / c * c + c)
scaled_bounds a b c h = grind arith

scaled_small : (a b c : ℕ) → a < 2 ^ 15 → b < 2 ^ 15 → a * b / c < 2 ^ 31
scaled_small a b c p q = omega (
  arith,
  div-le_self (a * b) c,
  mul-le-mul {n₁ = a} {m₁ = b} {n₂ = 32767} {m₂ = 32767} (omega arith) (omega arith),
)

at_least_one-eq : (n : ℕ) → at_least_one (pos n) ≡ (if n == 0 then 1 else n)
unfolding at_least_one
at_least_one-eq n = ground arith

-- Of a client area and a frame: inside, touching two sides, and with the frame's proportions up to
-- one pixel.
pub record IsFitted (client frame size : Extent) : Type 0 where
  pub wide : 0 < size.width
  pub high : 0 < size.height
  pub in_width : size.width ≤ client.width
  pub in_height : size.height ≤ client.height
  pub touches : (size.width ≡ client.width) ⊎ (size.height ≡ client.height)
  pub not_too_wide :
      size.width * frame.height ≤ size.height * frame.width + frame.width + frame.height
  pub not_too_high :
      size.height * frame.width ≤ size.width * frame.height + frame.width + frame.height

-- A side that follows from the other one.
scaled_side :
    (side num den : ℕ)
    → 0 < den
    → (at_least_one (pos (side * num / den)) * den ≤ side * num + den)
      × (side * num ≤ at_least_one (pos (side * num / den)) * den + den)
      × (0 < at_least_one (pos (side * num / den)))
unfolding at_least_one
scaled_side side num den h = grind (arith, scaled_bounds side num den h)

-- Without an overflow the two sizes are computed in the natural numbers.
by_width : Extent → Extent → Extent
by_width client frame = record {
  width = at_least_one (pos client.width);
  height = at_least_one (pos (client.width * frame.height / frame.width));
}

by_height : Extent → Extent → Extent
by_height client frame = record {
  width = at_least_one (pos (client.height * frame.width / frame.height));
  height = at_least_one (pos client.height);
}

margin-fitting : (side size : ℕ) → size ≤ side → margin side size ≡ pos ((side - size) / 2)
unfolding margin
margin-fitting side size h = ground arith

module _ (client frame : Extent) (c : IsScreen client) (f : IsScreen frame) where
  fit-small : fit client frame ≡ (
      if ltb client.height (client.width * frame.height / frame.width)
      then by_height client frame
      else by_width client frame)
  unfolding fit by_height by_width
  fit-small =
      rw
        (to_int-small _
          (scaled_small client.width frame.height frame.width (omega arith) (omega arith)))
        (rw
          (to_int-small _
            (scaled_small client.height frame.width frame.height (omega arith) (omega arith)))
          (ground arith))

  by_width-IsFitted :
      client.width * frame.height / frame.width ≤ client.height
      → IsFitted client frame (by_width client frame)
  unfolding by_width at_least_one
  by_width-IsFitted h = ground (arith, scaled_side client.width frame.height frame.width f.wide)

  by_height-narrow :
      client.height < client.width * frame.height / frame.width
      → client.height * frame.width / frame.height ≤ client.width
  by_height-narrow h =
      le_of_mul-le-mul_right {k = frame.height}
        (omega (
          arith,
          (scaled_bounds client.height frame.width frame.height f.high).0,
          (scaled_bounds client.width frame.height frame.width f.wide).0,
          mul-le-mul_right {m = client.height} {n = client.width * frame.height / frame.width}
              frame.width (omega arith),
        ))
        f.high

  by_height-IsFitted :
      client.height < client.width * frame.height / frame.width
      → IsFitted client frame (by_height client frame)
  unfolding by_height at_least_one
  by_height-IsFitted h =
      ground (arith, scaled_side client.height frame.width frame.height f.high, by_height-narrow h)

  fit-IsFitted : IsFitted client frame (fit client frame)
  fit-IsFitted =
      rw fit-small
        (elim (Bool-cases (ltb client.height (client.width * frame.height / frame.width))) [
          | inl e ↦ rw e (by_height-IsFitted (ground arith))
          | inr e ↦ rw e (by_width-IsFitted (ground arith))
        ])

  rect-centered :
      calculate_video_rect client (some frame) false ≡ centered client (fit client frame)
  unfolding calculate_video_rect
  rect-centered = ground arith

  -- A frame that is fitted into the client area, neither of them empty nor with a side of 2^15, is
  -- shown in a rectangle inside the client area that touches two opposite sides of it, has the
  -- frame's proportions up to one pixel more of one side and one less of the other, and leaves
  -- margins that differ by one pixel at most.
  pub video_rect-IsFitted :
      (l t : ℕ) × (size : Extent) × (calculate_video_rect client (some frame) false
        ≡ record { left = pos l; top = pos t; width = size.width; height = size.height })
      × IsFitted client frame size
      × (2 * l + size.width ≤ client.width)
      × (client.width ≤ 2 * l + size.width + 1)
      × (2 * t + size.height ≤ client.height)
      × (client.height ≤ 2 * t + size.height + 1)
  unfolding centered
  video_rect-IsFitted =
      let size : Extent = fit client frame in
      let fitted = fit-IsFitted in
      (
        (client.width - size.width) / 2,
        (client.height - size.height) / 2,
        size,
        ground (
          arith,
          rect-centered,
          margin-fitting client.width size.width,
          margin-fitting client.height size.height,
        ),
        fitted,
        omega arith,
        omega arith,
        omega arith,
        omega arith,
      )
