-- ===== src/Bindings/Paho/Storing.antt =====
-- What `paho_receive` leaves in its buffer, and what goes from one `paho_send` to another's
-- `paho_receive`.
use msg_perf_tool.Base.{
  ℕ, zero, suc, ◌+◌, ◌≤◌, ◌<◌, ◌^◌, ◌≡◌, refl, ap, ◌∙◌, ltb, lt→ltb, ◌-◌, ◌%◌, false, some, [], ◌∷◌,
  length, take, take-length, Bytes, overlay, done, arith,
}
use mathlib.Core.Option
use msg_perf_tool.Content.{Content, IsValid}
use msg_perf_tool.Maestro.Msgpack.{Msgpack}
use msg_perf_tool.Maestro.Assign.{Memory}
use msg_perf_tool.Maestro.Deserialize.{input_of}
use msg_perf_tool.Bindings.Paho.Transfer.{store}

pub length-take : (n : ℕ) (bs : Bytes) → length (take n bs) ≤ n
length-take zero bs = omega arith
length-take (suc n) [] = omega arith
length-take (suc n) (b ∷ bs) = omega (arith, length-take n bs)

-- A write that fits leaves a region of the same length that begins with it.
pub overlay_fits :
    (bs region : Bytes)
    → length bs ≤ length region
    → (after : Bytes) × (overlay bs region ≡ some after)
      × (length after ≡ length region)
      × (take (length bs) after ≡ bs)
unfolding overlay
overlay_fits [] region h = (region, refl, refl, refl)
overlay_fits (b ∷ bs) [] h = absurd (omega arith)
overlay_fits (b ∷ bs) (r ∷ region) h =
    let (after, e, l, t) = overlay_fits bs region (omega arith) in
    (b ∷ after, ap (Option.map (◌∷◌ b)) e, omega (arith, l), ap (◌∷◌ b) t)

fits_lem : (capacity n : ℕ) → n ≤ capacity → ltb capacity n ≡ false
fits_lem capacity n h = ground arith

-- A payload that fits is stored whole, and the buffer stays valid.
pub store-fits :
    (m : Msgpack) (mem : Memory) (payload : Bytes) (c : Content)
    → IsValid c
    → length payload ≤ c.capacity
    → (c' : Content) × (store payload c ≡ done c')
      × IsValid c'
      × (c'.capacity ≡ c.capacity)
      × (input_of m mem c' ≡ payload)
unfolding store input_of
store-fits m mem payload c v h =
    let (region, there, l) = v.owned in
    let (after, e, l', t) = overlay_fits payload region (omega (arith, l)) in
    (
      record c { bytes = some after; size = length payload },
      rw (there, fits_lem c.capacity (length payload) h, take-length payload, e) refl,
      record { owned = (after, refl, l' ∙ l); fits = h },
      refl,
      t,
    )

-- A payload that is longer than the buffer leaves a size past its end.
pub store-oversized :
    (payload : Bytes) (c : Content)
    → IsValid c
    → 0 < c.capacity
    → c.capacity < length payload
    → c.capacity < 2 ^ 64
    → (c' : Content) × (store payload c ≡ done c')
      × (c'.capacity ≡ c.capacity)
      × (c'.size ≡ length payload)
unfolding store
store-oversized payload c v some_room h small =
    let (region, there, l) = v.owned in
    let n = (c.capacity + 2 ^ 64 - 1) % 2 ^ 64 in
    let (after, e, _, _) =
      overlay_fits (take n payload) region (omega (arith, l, length-take n payload)) in
    (
      record c { bytes = some after; size = length payload },
      rw (there, lt→ltb c.capacity (length payload) h, e) refl,
      refl,
      refl,
    )
