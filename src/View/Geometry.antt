-- ===== src/View/Geometry.antt =====
-- Where the video stands in its window, and how a point of the window becomes two 16-bit
-- coordinates: CalculateVideoRect and NormalizeVideoPoint of
-- RemoteControl_rtc/RemoteControl_rtc/VideoRenderWnd.cpp.
use webrtc_cpp_remote_contro.Base.{
  ℕ, ◌-◌, ◌*◌, ◌/◌, ◌%◌, ◌^◌, Bool, not, ◌&&◌, ◌||◌, Option, none, some, ltb, ◌==◌, if◌then◌else◌,
}
use webrtc_cpp_remote_contro.Base.Int.{ℤ, pos, negsuc, sub_ℕ, ◌+ℤ◌, ◌-ℤ◌, ltb_ℤ, max_ℤ, min_ℤ}

-- `CRect` by its corner and its extent, which is never negative here. The client area of a window
-- has the corner (0, 0).
pub record Rect : Type 0 where
  pub left : ℤ
  pub top : ℤ
  pub width : ℕ
  pub height : ℕ

pub record Extent : Type 0 where
  pub width : ℕ
  pub height : ℕ

unfoldable pub is_rect_empty : Rect → Bool
is_rect_empty r = r.width == 0 || r.height == 0

abbrev pub empty_rect : Rect
empty_rect = record { left = pos 0; top = pos 0; width = 0; height = 0 }

-- `static_cast<int>` of a `long long` that is not negative.
unfoldable pub to_int : ℕ → ℤ
to_int n = let m = n % 2 ^ 32 in if ltb m (2 ^ 31) then pos m else sub_ℕ m (2 ^ 32)

-- `max(1, value)`
unfoldable pub at_least_one : ℤ → ℕ
at_least_one (pos n) = if ltb 1 n then n else 1
at_least_one (negsuc n) = 1

-- The frame as wide as the client area or, if it would be too high, as high.
unfoldable pub fit : Extent → Extent → Extent
fit client frame =
    let height = to_int (client.width * frame.height / frame.width) in
    if ltb_ℤ (pos client.height) height
    then record {
      width = at_least_one (to_int (client.height * frame.width / frame.height));
      height = at_least_one (pos client.height);
    }
    else record { width = at_least_one (pos client.width); height = at_least_one height }

-- `(client - size) / 2` in integers, which truncates toward zero.
unfoldable pub margin : ℕ → ℕ → ℤ
margin client size = sub_ℕ ((client - size) / 2) ((size - client) / 2)

unfoldable pub centered : Extent → Extent → Rect
unfolding margin
centered client size = record {
  left = margin client.width size.width;
  top = margin client.height size.height;
  width = size.width;
  height = size.height;
}

-- `none` stands for no frame.
unfoldable pub calculate_video_rect : Extent → Option Extent → Bool → Rect
unfolding fit centered
calculate_video_rect client none original_size = empty_rect
calculate_video_rect client (some frame) original_size =
    if client.width == 0 || client.height == 0 || frame.width == 0 || frame.height == 0
    then empty_rect
    else centered client (if original_size then frame else fit client frame)

-- A coordinate of the point, held inside the rectangle, from the edge of the rectangle.
unfoldable pub offset : ℤ → ℤ → ℕ → ℤ
unfolding ◌+ℤ◌ ◌-ℤ◌
offset point start size = max_ℤ start (min_ℤ point (start +ℤ pos size -ℤ pos 1)) -ℤ start

-- `static_cast<unsigned short>`
unfoldable pub unsigned_short : ℤ → ℕ
unsigned_short (pos n) = n % 2 ^ 16
unsigned_short (negsuc n) = 2 ^ 16 - 1 - n % 2 ^ 16

-- Windows' `MulDiv` is a parameter.
unfoldable pub normalize : (ℤ → ℤ → ℤ → ℤ) → ℤ → ℤ → ℕ → ℕ
unfolding offset unsigned_short at_least_one
normalize mul_div point start size =
    unsigned_short
      (mul_div (offset point start size) (pos 65535) (pos (at_least_one (sub_ℕ size 1))))

-- `full` is `fullscreen_owner_ && !original_size_`: then the whole client area counts.
unfoldable pub normalize_video_point :
    (ℤ → ℤ → ℤ → ℤ) → Extent → Option Extent → Bool → Bool → ℤ → ℤ → Option (ℕ × ℕ)
unfolding calculate_video_rect is_rect_empty normalize
normalize_video_point mul_div client frame fullscreen original_size x y =
    let whole : Rect = record {
      left = pos 0;
      top = pos 0;
      width = client.width;
      height = client.height;
    } in
    let bounds =
      if fullscreen && not original_size
      then whole
      else calculate_video_rect client frame original_size in
    if is_rect_empty bounds
    then none
    else some
        (normalize mul_div x bounds.left bounds.width, normalize mul_div y bounds.top bounds.height)
