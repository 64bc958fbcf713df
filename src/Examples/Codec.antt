-- ===== src/Examples/Codec.antt =====
-- A small packing format that keeps the laws of msgpack, and memory that never runs out.
use msg_perf_tool.Base.{
  ℕ, zero, suc, ◌^◌, ◌==◌, ltb, if◌then◌else◌, Bool-cases, inl, inr, ◌≡◌, refl, Option, none, some,
  [], ◌∷◌, ◌++◌, Bytes, length, replicate, length-replicate, c_string, terminated,
}
use msg_perf_tool.Content.Random.{Allocates}
use msg_perf_tool.Maestro.Msgpack.{
  Msgpack, IsLawful, Object, positive_integer, negative_integer, float, str, unsupported,
  int64_object, Encodes,
}
use msg_perf_tool.Maestro.Note.{Payload}
use msg_perf_tool.Maestro.Assign.{Memory}
use msg_perf_tool.Maestro.Reads.{Available}

-- The first `n` bytes and the others.
split : ℕ → Bytes → Option (Bytes × Bytes)
split zero bs = some ([], bs)
split (suc n) [] = none
split (suc n) (b ∷ bs) = elim (split n bs) [
  | none ↦ none
  | some (front, back) ↦ some (b ∷ front, back)
]

split-append : (front back : Bytes) → split (length front) (front ++ back) ≡ some (front, back)
unfolding split
split-append [] back = refl
split-append (b ∷ front) back = rw (split-append front back)

-- A tag, then a number or the length of a text.
unfoldable pub next : Bytes → Option (Object × Bytes)
unfolding split
next (tag ∷ n ∷ bs) =
    if tag == 1
    then some (positive_integer n, bs)
    else if tag == 2
    then some (negative_integer n, bs)
    else if tag == 3
    then some (float n, bs)
    else if tag == 4
    then elim (split n bs) [ none ↦ none | some (s, back) ↦ some (str s, back) ]
    else if tag == 5
    then some (unsupported n, bs)
    else none
next bs = none

tagged : ℕ → ℕ → Bytes
tagged tag n = tag ∷ n ∷ []

unfoldable pub codec : Msgpack
unfolding next tagged
codec = record {
  pack_int8 = tagged 1;
  pack_uint8 = tagged 1;
  pack_uint32 = tagged 1;
  pack_int64 = λ w. tagged (if ltb w (2 ^ 63) then 1 else 2) w;
  pack_uint64 = tagged 1;
  pack_double = tagged 3;
  pack_str = tagged 4;
  pack_str_body = λ s. s;
  unpack_next = next;
}

int64-Encodes : (w : ℕ) → Encodes codec (int64_object w) (codec.pack_int64 w)
unfolding codec
int64-Encodes w rest = elim (Bool-cases (ltb w (2 ^ 63))) [ inl e ↦ rw e refl | inr e ↦ rw e refl ]

pub codec-IsLawful : IsLawful codec
unfolding codec
codec-IsLawful = record {
  int8 = λ n h rest. refl;
  uint8 = λ n h rest. refl;
  uint32 = λ n h rest. refl;
  int64 = λ w h. int64-Encodes w;
  uint64 = λ n h rest. refl;
  double = λ w h rest. refl;
  string = λ s h rest. rw (split-append s rest);
}

abbrev pub ample : ℕ → Option Bytes
ample n = some (replicate n 0)

pub ample-Allocates : Allocates ample
ample-Allocates n = (replicate n 0, refl, length-replicate n 0)

abbrev pub blank : Payload
blank = record {
  id = none;
  name = none;
  elapsed = 0;
  stats = record {
    child_count = 0;
    role = none;
    roleinfo = none;
    stat_type = 0;
    timestamp = none;
    count = 0;
    rate = 0;
    latency = 0;
  };
  message = none;
  opt = 0;
  value = none;
  sec = 0;
  usec = 0;
}

abbrev pub plenty : Memory
plenty = record { payload = some blank; alloc = λ site. ample; stray = λ o. 0 }

pub plenty-Available : Available plenty
plenty-Available = record { buffer = λ site n. ample-Allocates n }

abbrev pub duplicate : Bytes → Option Bytes
duplicate s = some (terminated (c_string s))
