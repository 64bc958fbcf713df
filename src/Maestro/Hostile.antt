-- ===== src/Maestro/Hostile.antt =====
-- What `maestro_deserialize_note` does with input that no well-formed note produces.
use mathlib.Core.List.{append-nil}
use msg_perf_tool.Base.{
  ℕ, ◌%◌, ◌/◌, ◌^◌, ◌≤◌, ◌<◌, ◌≡◌, ◌≢◌, refl, sym, ap, ◌∙◌, ne→==, ◌++◌, Bytes, arith, fault,
  length, c_string, none, some, ◌+◌, overlay_short, terminated, length-append, length-le_bytes,
  le_bytes, [], ◌∷◌, overlay,
}
use msg_perf_tool.Maestro.Command
use msg_perf_tool.Maestro.Msgpack.{Msgpack, IsLawful, Encodes, unsupported, str}
use msg_perf_tool.Maestro.Note.{
  as_note, wild, Payload, zeroed, type_request, type_response, payload_cleanup,
}
use msg_perf_tool.Maestro.Assign.{
  State, success, failed, crashed, Error, Memory, Site, written, assign, store_text, pointer_of,
  assign_command,
}
use msg_perf_tool.Maestro.Deserialize.{
  next_object, header, body, request, deserialize_bytes, prepare, response, response_header,
  response_body, ping_response, read_text, str_size,
}
use msg_perf_tool.Maestro.Headers.{assign_type-small, entered, header-positive, header_lem}
use msg_perf_tool.Maestro.Reads.{at, uint64_lem}
use msg_perf_tool.Maestro.Message.{IsWord}

module _ (m : Msgpack) (mem : Memory) where
  response_forgets_header :
      (s s1 s2 : State) (e : Error)
      → prepare m mem s ≡ (s1, success)
      → response_header m mem s1 ≡ (s2, failed e)
      → s2.note.command ≡ Command.ping
      → response m mem s ≡ ping_response m mem s2
  unfolding response response_body
  response_forgets_header s s1 s2 e p h c = rw (p, h, c)

  response_header-refused :
      (t c : ℕ) (p : Payload) (tag : ℕ) (bad rest region : Bytes)
      → Encodes m (unsupported tag) bad
      → mem.alloc Site.at_id ((mem.stray (unsupported tag) + 1) % 2 ^ 32) ≡ some region
      → response_header m mem (at t c p (bad ++ rest))
        ≡ (at t c (record p { id = some region }) rest, failed Error.unsupported_type)
  unfolding response_header read_text next_object str_size store_text assign written
  response_header-refused t c p tag bad rest region enc room =
      rw (enc rest, next_object, read_text, response_header, room, store_text)

  ping_response-word :
      (law : IsLawful m) (t c : ℕ) (p : Payload) (w : ℕ) (rest : Bytes)
      → IsWord w
      → ping_response m mem (at t c p (m.pack_uint64 w ++ rest))
        ≡ (at t c (record p { elapsed = w }) rest, success)
  unfolding ping_response
  ping_response-word law t c p w rest h =
      ap (λ bs. ping_response m mem (at t c p (bs ++ rest))) (sym (append-nil (m.pack_uint64 w)))
      ∙ (uint64_lem m mem law Error.missing_elapsed (λ p. p.elapsed)
            (λ p v. record p { elapsed = v }) w h).runs
          t c p rest

  -- With a lawful msgpack and memory for the payload and the id, a ping response whose id is an
  -- object that the code refuses, and that has no name, is accepted all the same: the failure of
  -- the header is forgotten, and the object behind the id is taken for the elapsed time.
  pub response_accepts_bad_id :
      (law : IsLawful m) (blank : Payload) (tag w : ℕ) (bad rest region : Bytes)
      → mem.payload ≡ some blank
      → Encodes m (unsupported tag) bad
      → mem.alloc Site.at_id ((mem.stray (unsupported tag) + 1) % 2 ^ 32) ≡ some region
      → IsWord w
      → deserialize_bytes m mem (
          m.pack_int8 type_response
          ++ (m.pack_int64 Command.ping ++ (bad ++ (m.pack_uint64 w ++ rest))))
        ≡ (
          at type_response Command.ping (record blank { id = some region; elapsed = w }) rest,
          success,
        )
  unfolding deserialize_bytes body prepare
  response_accepts_bad_id law blank tag w bad rest region there enc room h =
      let torn : Payload = record blank { id = some region } in
      let tail = m.pack_uint64 w ++ rest in
      let elapsed : ping_response m mem (at type_response Command.ping torn tail)
          ≡ (at type_response Command.ping (record torn { elapsed = w }) rest, success) =
        ping_response-word law type_response Command.ping torn w rest h in
      let entry = entered type_response Command.ping (bad ++ tail) in
      let accepted : response m mem entry
          ≡ (at type_response Command.ping (record torn { elapsed = w }) rest, success) =
        response_forgets_header entry (at type_response Command.ping blank (bad ++ tail))
          (at type_response Command.ping torn tail) Error.unsupported_type (rw there refl)
          (response_header-refused type_response Command.ping blank tag bad tail region enc room)
          refl
        ∙ elapsed in
      rw (header_lem m mem law type_response Command.ping (bad ++ tail) (omega arith) (omega arith))
        accepted

  -- With a lawful msgpack, a request whose command is at least 2 ^ 32 and below 2 ^ 63 is
  -- accepted, and its high half becomes the payload's address: the clean-up then frees an address
  -- that was never allocated. The low half is to be no command with a body.
  pub command_overwrites_payload :
      (law : IsLawful m) (w : ℕ) (rest : Bytes)
      → 2 ^ 32 ≤ w
      → w < 2 ^ 63
      → w % 2 ^ 32 ≢ Command.set
      → w % 2 ^ 32 ≢ Command.ping
      → let note = as_note type_request (w % 2 ^ 32) wild in
        (deserialize_bytes m mem (m.pack_int8 type_request ++ (m.pack_int64 w ++ rest))
          ≡ (record { rest = rest; note = note }, success))
        × (payload_cleanup note ≡ fault)
  unfolding deserialize_bytes body request payload_cleanup pointer_of
  command_overwrites_payload law w rest big small a b =
      let address : pointer_of (w / 2 ^ 32) ≡ wild = rw (ne→== (w / 2 ^ 32) 0 (omega arith)) in
      (
        rw (header-positive m mem law type_request w rest (omega arith) small) (
            rw (ne→== _ _ a, ne→== _ _ b)
              (ap
                (λ q. (record { rest = rest; note = as_note type_request (w % 2 ^ 32) q }, success))
                address)),
        refl,
      )

  assign_command-text :
      (s : Bytes) (t : ℕ) (rest : Bytes)
      → 12 ≤ length (c_string s)
      → assign_command (str s) (entered t 0 rest) ≡ (entered t 0 rest, crashed)
  unfolding assign_command
  assign_command-text s t rest h =
      let short : overlay (terminated (c_string s)) (le_bytes 12 0) ≡ none =
        overlay_short (terminated (c_string s)) (le_bytes 12 0)
          (omega (arith, length-append (c_string s) (0 ∷ []), length-le_bytes 12 0)) in
      rw (short, assign_command)

  -- With a lawful msgpack, a note whose type is a small integer and whose command is a text of
  -- twelve bytes or more makes the run write past the end of the note: the command is stored
  -- without a look at the type of its object.
  pub text_command_crashes :
      (law : IsLawful m) (t : ℕ) (s : Bytes) (rest : Bytes)
      → t < 2 ^ 7
      → length s < 2 ^ 32
      → 12 ≤ length (c_string s)
      → deserialize_bytes m mem
          (m.pack_int8 t ++ ((m.pack_str (length s) ++ m.pack_str_body s) ++ rest))
        ≡ (entered t 0 rest, crashed)
  unfolding deserialize_bytes header
  text_command_crashes law t s rest ht hs h = rw (
    law.int8 t ht ((m.pack_str (length s) ++ m.pack_str_body s) ++ rest),
    next_object,
    assign_type-small t
        (record { rest = (m.pack_str (length s) ++ m.pack_str_body s) ++ rest; note = zeroed }) ht,
    law.string s hs rest,
    next_object,
    assign_command-text s t rest h,
  )
