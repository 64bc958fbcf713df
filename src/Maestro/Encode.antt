-- ===== src/Maestro/Encode.antt =====
-- What `maestro_serialize_note` packs for a note that represents a message.
use mathlib.Core.List.{append-nil, append_assoc}
use native.Mathlib.Nat.{mod-eq_of_lt}
use mathlib.Core.Path.{subst}
use msg_perf_tool.Base.{ap, ◌∙◌, ◌≡◌, some, done, Bytes, Option, ne→==}
use msg_perf_tool.Maestro.Command
use msg_perf_tool.Maestro.Msgpack.{Msgpack}
use msg_perf_tool.Maestro.Note.{Note, Pointer, as_note}
use msg_perf_tool.Maestro.Message.{
  Message, IsMessage, HoldsPayload, type_of, command_of, Represents, Holds, wire, text_piece,
}
use msg_perf_tool.Maestro.Serialize.{str_field, encode_note}

ruleset regroup = (append_assoc, append-nil)

module _ (m : Msgpack) where
  str_field-Holds :
      (member : Option Bytes) (s : Bytes)
      → Holds member s
      → str_field m member ≡ done (text_piece m s)
  unfolding str_field
  str_field-Holds member s (region, e, h) = rw (e, h)

  -- The note with its type and command written out.
  encode-wire_at :
      (msg : Message) (q : Pointer)
      → IsMessage msg
      → HoldsPayload (as_note (type_of msg) (command_of msg) q) msg
      → encode_note m (as_note (type_of msg) (command_of msg) q) ≡ done (some (wire m msg))
  unfolding encode_note
  encode-wire_at (Message.set_request opt value) q ok (p, e, (o, v)) =
      rw e (simp (str_field-Holds p.value value v, o, regroup))
  encode-wire_at (Message.ping_request sec usec) q ok (p, e, (a, b)) = rw e (simp (a, b, regroup))
  encode-wire_at (Message.plain_request c) q (_, a, b) _ =
      rw (ne→== c Command.set a, ne→== c Command.ping b) (simp regroup)
  encode-wire_at (Message.ping_response s elapsed) q ok (p, e, (h, w)) =
      rw e (simp (str_field-Holds p.id s.id h.id, str_field-Holds p.name s.name h.name, w, regroup))
  encode-wire_at (Message.stats_response s stats) q ok (p, e, (h, st)) = rw e (
      simp (
        str_field-Holds p.id s.id h.id,
        str_field-Holds p.name s.name h.name,
        str_field-Holds p.stats.role stats.role st.role,
        str_field-Holds p.stats.roleinfo stats.roleinfo st.roleinfo,
        str_field-Holds p.stats.timestamp stats.timestamp st.timestamp,
        st.child_count,
        st.stat_type,
        st.count,
        st.rate,
        st.latency,
        mod-eq_of_lt ok.1.stat_type,
        regroup,
      ))
  encode-wire_at (Message.plain_response c s) q (_, a, b, _) (p, e, h) =
      rw (ne→== c Command.ping a, ne→== c Command.stats b)
        (rw e
          (simp (str_field-Holds p.id s.id h.id, str_field-Holds p.name s.name h.name, regroup)))
  encode-wire_at (Message.notification c s message) q ok (p, e, (h, t)) = rw e (
      simp (
        str_field-Holds p.id s.id h.id,
        str_field-Holds p.name s.name h.name,
        str_field-Holds p.message message t,
        regroup,
      ))

  -- What `maestro_serialize_note` packs for a note that represents a message of the protocol is
  -- the wire format of that message.
  pub encode-wire :
      (n : Note) (msg : Message)
      → IsMessage msg
      → Represents n msg
      → encode_note m n ≡ done (some (wire m msg))
  encode-wire n msg ok r =
      let spelled : n ≡ as_note (type_of msg) (command_of msg) n.payload =
        λ i. as_note (r.type i) (r.command i) n.payload in
      ap (encode_note m) spelled
      ∙ encode-wire_at msg n.payload ok (subst (λ k. HoldsPayload k msg) spelled r.payload)
