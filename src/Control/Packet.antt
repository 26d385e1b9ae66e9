-- ===== src/Control/Packet.antt =====
-- `ControlPacket` of RemoteControl_rtc/RemoteControl_rtc/RemoteControlChannel.h: packed, 12 bytes,
-- little-endian as on Windows x64. Every field is its bit pattern.
use webrtc_cpp_remote_contro.Base.{
  ℕ, zero, suc, ◌+◌, ◌*◌, ◌/◌, ◌%◌, ◌^◌, ◌<◌, ◌≡◌, [], ◌∷◌, ◌++◌, Option, none, some, arith, Bytes,
}

pub record ControlPacket : Type 0 where
  pub magic : ℕ
  pub version : ℕ
  pub type : ℕ
  pub arg1 : ℕ
  pub arg2 : ℕ

abbrev pub rtc1 : ℕ
rtc1 = 0x31435452

-- A packet with the default fields.
abbrev pub packet : ℕ → ℕ → ℕ → ControlPacket
packet type arg1 arg2 = record { magic = rtc1; version = 1; type = type; arg1 = arg1; arg2 = arg2 }

-- The `n` bytes of a number, the lowest one first.
abbrev le_bytes : ℕ → ℕ → Bytes
le_bytes zero x = []
le_bytes (suc n) x = x % 256 ∷ le_bytes n (x / 256)

-- The bytes that `channel_->Send` is given.
unfoldable pub encode : ControlPacket → Bytes
encode p = le_bytes 4 p.magic ++ (p.version ∷ p.type ∷ (le_bytes 2 p.arg1 ++ le_bytes 4 p.arg2))

abbrev word16 : ℕ → ℕ → ℕ
word16 a b = a + 256 * b

abbrev word32 : ℕ → ℕ → ℕ → ℕ → ℕ
word32 a b c d = a + 256 * (b + 256 * (c + 256 * d))

-- `length != sizeof(ControlPacket)`, and `memcpy`.
unfoldable pub decode : Bytes → Option ControlPacket
decode (a ∷ b ∷ c ∷ d ∷ v ∷ t ∷ e ∷ f ∷ g ∷ h ∷ i ∷ j ∷ []) = some (record {
  magic = word32 a b c d;
  version = v;
  type = t;
  arg1 = word16 e f;
  arg2 = word32 g h i j;
})
decode _ = none

pub record Fits (p : ControlPacket) : Type 0 where
  pub magic_fits : p.magic < 2 ^ 32
  pub arg1_fits : p.arg1 < 2 ^ 16
  pub arg2_fits : p.arg2 < 2 ^ 32

word32_bytes :
    (x : ℕ)
    → x < 2 ^ 32
    → word32 (x % 256) (x / 256 % 256) (x / 256 / 256 % 256) (x / 256 / 256 / 256 % 256) ≡ x
word32_bytes x h = omega arith

word16_bytes : (x : ℕ) → x < 2 ^ 16 → word16 (x % 256) (x / 256 % 256) ≡ x
word16_bytes x h = omega arith

-- What is sent is what is received, field by field.
pub decode-encode : (p : ControlPacket) → Fits p → decode (encode p) ≡ some p
unfolding decode encode
decode-encode p f = λ i. some (record p {
  magic = word32_bytes p.magic f.magic_fits i;
  arg1 = word16_bytes p.arg1 f.arg1_fits i;
  arg2 = word32_bytes p.arg2 f.arg2_fits i;
})
