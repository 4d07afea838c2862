-- ===== src/Codec/Messages.antt =====
-- The typed frames of pkg/transport/codec/protobuf.go: one Encode and one Decode for each kind of
-- message. The messages are types of the protobuf library, and parameters.
use quic_flow.Prelude.{ℕ, ◌≡◌, refl, ap, ◌∙◌, ◌==◌, if◌then◌else◌, Option, none, some, arith}
use quic_flow.Prelude.Text.{Text}
use quic_flow.Codec.{
  Protobuf, Frame, Result, ok, err, message_is_nil, invalid_frame_type, marshal_failed,
  unmarshalled, ping_type, pong_type, data_type, ack_type,
}

-- The kinds of message, and the numbers of their frames.
pub data Kind : Type 0 where
  data_kind ping_kind pong_kind ack_kind : Kind

abbrev pub number : Kind → ℕ
number data_kind = data_type
number ping_kind = ping_type
number pong_kind = pong_type
number ack_kind = ack_type

framed : ℕ → ℕ → Option Text → Result Frame
framed kind timestamp none = err marshal_failed
framed kind timestamp (some b) =
    ok (record { frame_type = kind; payload = b; timestamp = timestamp })

module _ {M : Type 0} (p : Protobuf M) where
  -- What the four encoders and the four decoders share.
  abbrev encode_as : ℕ → Option M → ℕ → Result Frame
  unfolding framed
  encode_as kind none timestamp = err message_is_nil
  encode_as kind (some m) timestamp = framed kind timestamp (p.marshal m)

  abbrev decode_as : ℕ → Option Frame → Result M
  unfolding unmarshalled
  decode_as kind none = err message_is_nil
  decode_as kind (some f) =
      if f.frame_type == kind
      then unmarshalled (p.unmarshal f.payload)
      else err (invalid_frame_type f.frame_type)

  -- A data message carries its own time.
  unfoldable pub encode_data_message : (M → ℕ) → Option M → Result Frame
  unfolding framed
  encode_data_message timestamp none = err message_is_nil
  encode_data_message timestamp (some m) = framed data_type (timestamp m) (p.marshal m)

  unfoldable pub decode_data_message : Option Frame → Result M
  unfolding unmarshalled
  decode_data_message = decode_as data_type

  unfoldable pub encode_ping_frame : Option M → ℕ → Result Frame
  unfolding framed
  encode_ping_frame = encode_as ping_type

  unfoldable pub decode_ping_frame : Option Frame → Result M
  unfolding unmarshalled
  decode_ping_frame = decode_as ping_type

  unfoldable pub encode_pong_frame : Option M → ℕ → Result Frame
  unfolding framed
  encode_pong_frame = encode_as pong_type

  unfoldable pub decode_pong_frame : Option Frame → Result M
  unfolding unmarshalled
  decode_pong_frame = decode_as pong_type

  unfoldable pub encode_ack_message : Option M → ℕ → Result Frame
  unfolding framed
  encode_ack_message = encode_as ack_type

  unfoldable pub decode_ack_message : Option Frame → Result M
  unfolding unmarshalled
  decode_ack_message = decode_as ack_type

  -- The encoder and the decoder of a kind; a data message takes its time from `t`.
  abbrev pub encode : Kind → M → ℕ → Result Frame
  encode data_kind m t = encode_data_message (λ _. t) (some m)
  encode ping_kind m t = encode_ping_frame (some m) t
  encode pong_kind m t = encode_pong_frame (some m) t
  encode ack_kind m t = encode_ack_message (some m) t

  abbrev pub decode : Kind → Frame → Result M
  decode data_kind f = decode_data_message (some f)
  decode ping_kind f = decode_ping_frame (some f)
  decode pong_kind f = decode_pong_frame (some f)
  decode ack_kind f = decode_ack_message (some f)

  framed_fields :
      (kind t : ℕ) (m : M) (f : Frame)
      → framed kind t (p.marshal m) ≡ ok f
      → (p.unmarshal f.payload ≡ some m) × (f.timestamp ≡ t) × (f.frame_type ≡ kind)
  unfolding framed
  framed_fields kind t m f h = go (p.marshal m) refl h
    where
      go :
          (o : Option Text)
          → p.marshal m ≡ o
          → framed kind t o ≡ ok f
          → (p.unmarshal f.payload ≡ some m) × (f.timestamp ≡ t) × (f.frame_type ≡ kind)
      go none e h = ground arith
      go (some b) e h = ground (arith, p.unmarshal-marshal m b e)

  encode_fields :
      (k : Kind) (t : ℕ) (m : M) (f : Frame)
      → encode k m t ≡ ok f
      → (p.unmarshal f.payload ≡ some m) × (f.timestamp ≡ t) × (f.frame_type ≡ number k)
  unfolding encode_data_message encode_ping_frame encode_pong_frame encode_ack_message encode_as
  encode_fields data_kind t m f h = framed_fields data_type t m f h
  encode_fields ping_kind t m f h = framed_fields ping_type t m f h
  encode_fields pong_kind t m f h = framed_fields pong_type t m f h
  encode_fields ack_kind t m f h = framed_fields ack_type t m f h

  decode_fields :
      (j : Kind) (m : M) (f : Frame)
      → p.unmarshal f.payload ≡ some m
      → decode j f
        ≡ (if f.frame_type == number j then ok m else err (invalid_frame_type f.frame_type))
  unfolding decode_data_message decode_ping_frame decode_pong_frame decode_ack_message unmarshalled
  decode_fields data_kind m f e = ground arith
  decode_fields ping_kind m f e = ground arith
  decode_fields pong_kind m f e = ground arith
  decode_fields ack_kind m f e = ground arith

  -- A frame made by the encoder of any of the four kinds carries the time it was given. The decoder
  -- of the same kind gives its message back, and the decoder of another kind refuses it with the type
  -- that it found.
  pub decode-encode :
      (k j : Kind) (t : ℕ) (m : M) (f : Frame)
      → encode k m t ≡ ok f
      → (f.timestamp ≡ t)
        × (decode j f
            ≡ (if number k == number j then ok m else err (invalid_frame_type (number k))))
  decode-encode k j t m f h =
      let (back, time, kind) = encode_fields k t m f h in
      (
        time,
        decode_fields j m f back
            ∙ ap (λ n. if n == number j then ok m else err (invalid_frame_type n)) kind,
      )
