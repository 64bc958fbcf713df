-- ===== src/Maestro/Msgpack.antt =====
-- msgpack-c, as the protocol code uses it (a third-party library, so a parameter): the packers
-- append the encoding of one value, and `msgpack_unpack_next` reads the next object of a buffer.
use msg_perf_tool.Base.{
  ℕ, ◌^◌, ◌<◌, ◌≡◌, Bool, Option, some, ◌++◌, Bytes, length, ltb, if◌then◌else◌,
}

-- `msgpack_object`: the tags that the code names, the numbers as their 64-bit patterns, and any
-- other object by its tag.
pub data Object : Type 0 where
  boolean : Bool → Object
  positive_integer : ℕ → Object
  negative_integer : ℕ → Object
  float : ℕ → Object
  str : Bytes → Object
  unsupported : ℕ → Object

-- The offset of `msgpack_unpack_next` is the part of the buffer that is still to be read.
pub record Msgpack : Type 0 where
  pub pack_int8 : ℕ → Bytes
  pub pack_uint8 : ℕ → Bytes
  pub pack_uint32 : ℕ → Bytes
  pub pack_int64 : ℕ → Bytes
  pub pack_uint64 : ℕ → Bytes
  pub pack_double : ℕ → Bytes
  pub pack_str : ℕ → Bytes
  pub pack_str_body : Bytes → Bytes
  pub unpack_next : Bytes → Option (Object × Bytes)

-- What an `int64_t` with the pattern `w` is read back as.
abbrev pub int64_object : ℕ → Object
int64_object w = if ltb w (2 ^ 63) then positive_integer w else negative_integer w

-- `bs` is an encoding of `o`: whatever follows it, the object is read and the rest is left.
abbrev pub Encodes : Msgpack → Object → Bytes → Type 0
Encodes m o bs = (rest : Bytes) → m.unpack_next (bs ++ rest) ≡ some (o, rest)

-- The documented behaviour of the library: each packer encodes its value.
pub record IsLawful (m : Msgpack) : Type 0 where
  pub int8 : (n : ℕ) → n < 2 ^ 7 → Encodes m (positive_integer n) (m.pack_int8 n)
  pub uint8 : (n : ℕ) → n < 2 ^ 8 → Encodes m (positive_integer n) (m.pack_uint8 n)
  pub uint32 : (n : ℕ) → n < 2 ^ 32 → Encodes m (positive_integer n) (m.pack_uint32 n)
  pub int64 : (w : ℕ) → w < 2 ^ 64 → Encodes m (int64_object w) (m.pack_int64 w)
  pub uint64 : (n : ℕ) → n < 2 ^ 64 → Encodes m (positive_integer n) (m.pack_uint64 n)
  pub double : (w : ℕ) → w < 2 ^ 64 → Encodes m (float w) (m.pack_double w)
  pub string :
      (s : Bytes)
      → length s < 2 ^ 32
      → Encodes m (str s) (m.pack_str (length s) ++ m.pack_str_body s)
