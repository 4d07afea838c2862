-- ===== src/Codec.antt =====
-- pkg/transport/codec/protobuf.go: frames on a stream, each behind its length as 4 bytes.
-- The protobuf library is a parameter: for each type of message a pair of functions, of which
-- Unmarshal undoes Marshal. A reader is the bytes that it has yet to give. A writer is any type with
-- a Write, which gives the new writer, the count of bytes written and whether it failed.
pub mod Streams
pub mod Messages
pub mod Pooled
mod Examples
use quic_flow.Prelude.{
  ℕ, ◌*◌, ◌%◌, ltb, ◌==◌, if◌then◌else◌, ◌≡◌, Bool, true, false, Option, none, some, length,
}
use quic_flow.Prelude.Text.{Text}
use quic_flow.Prelude.Bytes.{ReadFull, full, eof, unexpected_eof, read_full, put_u32, get_u32}

-- proto.Marshal and proto.Unmarshal for messages of a type; `none` is an error.
pub record Protobuf (M : Type 0) : Type 0 where
  pub marshal : M → Option Text
  pub unmarshal : Text → Option M
  pub unmarshal-marshal : (m : M) (b : Text) → marshal m ≡ some b → unmarshal b ≡ some m

-- FrameType, by its number.
abbrev pub ping_type : ℕ
ping_type = 1

abbrev pub pong_type : ℕ
pong_type = 2

abbrev pub data_type : ℕ
data_type = 3

abbrev pub ack_type : ℕ
ack_type = 4

pub record Frame : Type 0 where
  pub frame_type : ℕ
  pub payload : Text
  pub timestamp : ℕ

-- The errors, told apart by their texts.
pub data CodecError : Type 0 where
  frame_is_nil marshal_failed write_length_failed write_data_failed partial_write : CodecError
  eof_in_length failed_in_length zero_length : CodecError
  too_large : ℕ → CodecError
  eof_in_data failed_in_data empty_data unmarshal_failed : CodecError
  message_is_nil : CodecError
  invalid_frame_type : ℕ → CodecError

pub data Result {ℓ} (A : Type ℓ) : Type ℓ where
  ok : A → Result A
  err : CodecError → Result A

-- The largest frame that is read: 10 MB.
abbrev pub max_frame : ℕ
max_frame = 10 * 1024 * 1024

unmarshalled {ℓ} : {A : Type ℓ} → Option A → Result A
unmarshalled none = err unmarshal_failed
unmarshalled (some a) = ok a

marshalled : Option Text → Result Text
marshalled none = err marshal_failed
marshalled (some b) = ok b

module _ (p : Protobuf Frame) where
  unfoldable pub encode_frame : Option Frame → Result Text
  unfolding marshalled
  encode_frame none = err frame_is_nil
  encode_frame (some f) = marshalled (p.marshal f)

  unfoldable pub decode_frame : Text → Result Frame
  unfolding unmarshalled
  decode_frame b = if length b == 0 then err empty_data else unmarshalled (p.unmarshal b)

  -- Behind the length.
  read_data : ReadFull → Result (Frame × Text)
  read_data (full b rest) = elim (decode_frame b) [ err e ↦ err e | ok f ↦ ok (f, rest) ]
  read_data eof = err eof_in_data
  read_data (unexpected_eof _) = err failed_in_data

  read_length : ReadFull → Result (Frame × Text)
  unfolding read_data
  read_length eof = err eof_in_length
  read_length (unexpected_eof _) = err failed_in_length
  read_length (full b rest) =
      let n = get_u32 b in
      if n == 0
      then err zero_length
      else if ltb max_frame n
      then err (too_large n)
      else read_data (read_full n rest)

  -- The frame and what is left of the stream.
  unfoldable pub read_frame : Text → Result (Frame × Text)
  unfolding read_length
  read_frame s = read_length (read_full 4 s)

  module _ {W : Type 0} (write : W → Text → W × ℕ × Bool) where
    -- The two writes of the bytes of a frame; the error is `none` where both succeed.
    write_data : Text → W × ℕ × Bool → W × Option CodecError
    write_data b (w, _, true) = (w, some write_length_failed)
    write_data b (w, _, false) =
        let (w', n, failed) = write w b in
        if failed
        then (w', some write_data_failed)
        else (w', if n == length b then none else some partial_write)

    unfoldable pub write_frame : W → Option Frame → W × Option CodecError
    unfolding write_data
    write_frame w f = elim (encode_frame f) [
      | err e ↦ (w, some e)
      | ok b ↦ write_data b (write w (put_u32 (length b % 4294967296)))
    ]
