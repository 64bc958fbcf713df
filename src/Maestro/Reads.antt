-- ===== src/Maestro/Reads.antt =====
-- What the steps of the deserializer do on a well-formed input: each consumes its pieces and
-- changes the payload.
use mathlib.Core.List.{append_assoc, append-nil}
use msg_perf_tool.Base.{
  ℕ, ◌+◌, ◌%◌, ◌^◌, ◌<◌, ◌≡◌, refl, ap, ◌∙◌, Bool-cases, inl, inr, ltb, Option, some, List, [], ◌∷◌,
  ◌++◌, Bytes, arith, length, length-append, le_bytes, le_value-le_bytes8, overlay_full,
  c_string-text, IsText, terminated,
}
use msg_perf_tool.Maestro.Msgpack.{
  Msgpack, IsLawful, Encodes, Object, positive_integer, float, str, int64_object,
}
use msg_perf_tool.Maestro.Note.{Payload, as_note, block}
use msg_perf_tool.Maestro.Message.{IsField, IsWord, joined, text_piece}
use msg_perf_tool.Maestro.Assign.{
  Error, State, Step, ◌>>◌, success, written, assign, stored, Memory, Site, store_word, store_text,
}
use msg_perf_tool.Maestro.Deserialize.{next_object, read_word, read_text, str_size}

-- The state in the middle of a payload.
abbrev pub at : ℕ → ℕ → Payload → Bytes → State
at t c p rest = record { rest = rest; note = as_note t c (block p) }

-- The step reads the pieces and changes the payload by `f`, whatever comes behind them.
pub record Does (step : Step) (pieces : List Bytes) (f : Payload → Payload) : Type 0 where
  pub runs :
      (t c : ℕ) (p : Payload) (rest : Bytes)
      → step (at t c p (joined pieces ++ rest)) ≡ (at t c (f p) rest, success)

pub joined-append : (ps qs : List Bytes) → joined (ps ++ qs) ≡ joined ps ++ joined qs
joined-append [] qs = refl
joined-append (piece ∷ ps) qs = rw (joined-append ps qs, append_assoc)

pub Does->> :
    {a b : Step} {ps qs : List Bytes} {f g : Payload → Payload}
    → Does a ps f
    → Does b qs g
    → Does (a >> b) (ps ++ qs) (λ p. g (f p))
Does->> {ps} {qs} {f} da db = record {
  runs = λ t c p rest.
      rw (joined-append ps qs, append_assoc, da.runs t c p (joined qs ++ rest))
        (db.runs t c (f p) rest);
}

pub Does-eq :
    {step : Step} {ps : List Bytes} {f g : Payload → Payload}
    → ((p : Payload) → f p ≡ g p)
    → Does step ps f
    → Does step ps g
Does-eq same d = record {
  runs = λ t c p rest. d.runs t c p rest ∙ ap (λ q. (at t c q rest, success)) (same p);
}

-- The buffers are there when asked for, with their length.
pub record Available (mem : Memory) : Type 0 where
  pub buffer :
      (site : Site) (n : ℕ)
      → (region : Bytes) × (mem.alloc site n ≡ some region) × (length region ≡ n)

-- The object stores the 64-bit word.
abbrev pub Stores : Object → ℕ → Type 0
Stores o w = written o ≡ some (le_bytes 8 w)

assign-Stores :
    (o : Object) (w old : ℕ) → Stores o w → assign o (le_bytes 8 old) ≡ stored (le_bytes 8 w)
unfolding assign
assign-Stores o w old h = rw (h, assign)

store_word-Stores :
    (o : Object) (w old : ℕ) (put : ℕ → Payload) (p : Payload)
    → Stores o w
    → w < 2 ^ 64
    → store_word o old put p ≡ (block (put w), success)
unfolding store_word
store_word-Stores o w old put p h small =
    rw (assign-Stores o w old h, store_word)
      (ap (λ v. (block (put v), success)) (le_value-le_bytes8 w small))

module _ (m : Msgpack) (mem : Memory) where
  word_lem :
      (e : Error) (get : Payload → ℕ) (put : Payload → ℕ → Payload) (o : Object) (w : ℕ)
      (bs : Bytes)
      → Encodes m o bs
      → Stores o w
      → w < 2 ^ 64
      → Does (read_word m mem e get put) (bs ∷ []) (λ p. put p w)
  unfolding read_word
  word_lem e get put o w bs enc st h = record {
    runs = λ t c p rest.
        rw (append-nil bs, enc rest, next_object, store_word-Stores o w (get p) (put p) p st h);
  }

  -- The objects of an unsigned and of a signed word and of a `double` store that word.
  pub uint64_lem :
      (law : IsLawful m) (e : Error) (get : Payload → ℕ) (put : Payload → ℕ → Payload) (w : ℕ)
      → IsWord w
      → Does (read_word m mem e get put) (m.pack_uint64 w ∷ []) (λ p. put p w)
  unfolding written
  uint64_lem law e get put w h =
      word_lem e get put (positive_integer w) w (m.pack_uint64 w) (law.uint64 w h) refl h

  pub double_lem :
      (law : IsLawful m) (e : Error) (get : Payload → ℕ) (put : Payload → ℕ → Payload) (w : ℕ)
      → IsWord w
      → Does (read_word m mem e get put) (m.pack_double w ∷ []) (λ p. put p w)
  unfolding written
  double_lem law e get put w h =
      word_lem e get put (float w) w (m.pack_double w) (law.double w h) refl h

  int64-Stores : (w : ℕ) → Stores (int64_object w) w
  unfolding written
  int64-Stores w = elim (Bool-cases (ltb w (2 ^ 63))) [ inl e ↦ rw e | inr e ↦ rw e ]

  pub int64_lem :
      (law : IsLawful m) (e : Error) (get : Payload → ℕ) (put : Payload → ℕ → Payload) (w : ℕ)
      → IsWord w
      → Does (read_word m mem e get put) (m.pack_int64 w ∷ []) (λ p. put p w)
  int64_lem law e get put w h =
      word_lem e get put (int64_object w) w (m.pack_int64 w) (law.int64 w h) (int64-Stores w) h

  -- The members of 32 bits, which are stored into as words and read back modulo 2 ^ 32.
  pub uint32_lem :
      (law : IsLawful m) (e : Error) (get : Payload → ℕ) (put : Payload → ℕ → Payload) (w : ℕ)
      → w < 2 ^ 32
      → Does (read_word m mem e get put) (m.pack_uint32 w ∷ []) (λ p. put p w)
  unfolding written
  uint32_lem law e get put w h =
      word_lem e get put (positive_integer w) w (m.pack_uint32 w) (law.uint32 w h) refl
        (omega arith)

  pub uint8_lem :
      (law : IsLawful m) (e : Error) (get : Payload → ℕ) (put : Payload → ℕ → Payload) (w : ℕ)
      → w < 2 ^ 8
      → Does (read_word m mem e get put) (m.pack_uint8 w ∷ []) (λ p. put p w)
  unfolding written
  uint8_lem law e get put w h =
      word_lem e get put (positive_integer w) w (m.pack_uint8 w) (law.uint8 w h) refl (omega arith)

  assign-text :
      (s region : Bytes)
      → IsText s
      → length region ≡ length s + 1
      → assign (str s) region ≡ stored (terminated s)
  unfolding assign
  assign-text s region t l = rw (
    c_string-text s t,
    overlay_full (terminated s) region (omega (arith, length-append s (0 ∷ []))),
    assign,
  )

  store_text-text :
      (s region : Bytes) (put : Option Bytes → Payload)
      → IsText s
      → length region ≡ length s + 1
      → store_text (str s) (some region) put ≡ (block (put (some (terminated s))), success)
  unfolding store_text
  store_text-text s region put t l = rw (assign-text s region t l, store_text)

  -- A text is stored with its terminator into a buffer of its length and one more.
  pub text_lem :
      (law : IsLawful m) (av : Available mem) (e : Error) (site : Site)
      (put : Payload → Option Bytes → Payload) (s : Bytes)
      → IsField s
      → Does (read_text m mem e site put) (text_piece m s ∷ []) (λ p. put p (some (terminated s)))
  unfolding read_text str_size
  text_lem law av e site put s h = record {
    runs = λ t c p rest.
        let n = (str_size m mem (str s) + 1) % 2 ^ 32 in
        let (region, got, l) = av.buffer site n in
        rw (
          append-nil (text_piece m s),
          law.string s (omega (arith, h.short)) rest,
          next_object,
          got,
          store_text-text s region (put p) h.text (omega (arith, h.short)),
        );
  }
