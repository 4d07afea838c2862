-- ===== src/Codec/Examples.antt =====
-- Tests and examples for pkg/transport/codec.
use quic_flow.Prelude.{
  ℕ, ◌≡◌, refl, sym, ◌&&◌, if◌then◌else◌, leb, ltb, Bool, false, Option, none, some, List, [], ◌∷◌,
  ◌++◌, length, arith,
}
use quic_flow.Prelude.Text.{Text}
use quic_flow.Prelude.Bytes.{read_full, get_u32}
use quic_flow.Codec.{Protobuf, Frame, ok, err, invalid_frame_type, read_frame, max_frame}
use quic_flow.Codec.Streams.{read_frames, write_frames, read_frames-write_frames}
use quic_flow.Codec.Messages.{data_kind, ack_kind, decode, encode_data_message, decode-encode}
use quic_flow.Prelude.{returns, panics}
use quic_flow.Codec.Pooled.{
  read_frame_optimized, announced, get_buffer, max_buffer_size, read_frame_optimized_lem,
}

-- An encoding that meets the law: the two numbers, then the payload.
abbrev plain_unmarshal : Text → Option Frame
plain_unmarshal (a ∷ b ∷ s) = some (record { frame_type = a; timestamp = b; payload = s })
plain_unmarshal _ = none

plain-law :
    (f : Frame) (b : Text)
    → some (f.frame_type ∷ f.timestamp ∷ f.payload) ≡ some b
    → plain_unmarshal b ≡ some f
plain-law f b h = ground arith

texts-law : (m b : Text) → some m ≡ some b → some b ≡ some m
texts-law m b h = sym h

abbrev plain : Protobuf Frame
plain = record {
  marshal = λ f. some (f.frame_type ∷ f.timestamp ∷ f.payload);
  unmarshal = plain_unmarshal;
  unmarshal-marshal = plain-law;
}

abbrev frames : List Frame
frames =
    record { frame_type = 3; payload = b'h' ∷ b'i' ∷ []; timestamp = 7 }
    ∷ record { frame_type = 1; payload = []; timestamp = 8 }
    ∷ []

abbrev append : Text → Text → Text × ℕ × Bool
append w b = (w ++ b, length b, false)

read_frames-write_frames_example :
    ((write_frames plain append [] frames).1 ≡ none)
    × (read_frames plain (length frames) (write_frames plain append [] frames).0 ≡ ok (frames, []))
read_frames-write_frames_example =
    read_frames-write_frames plain append (λ w. w) (λ w b. (refl, refl, refl)) [] frames refl
      (refl, (refl, tt))

abbrev texts : Protobuf Text
texts = record { marshal = λ s. some s; unmarshal = λ s. some s; unmarshal-marshal = texts-law }

abbrev framed_hi : Frame
framed_hi = record { frame_type = 3; payload = b'h' ∷ b'i' ∷ []; timestamp = 7 }

decode-encode_example :
    (framed_hi.timestamp ≡ 7) × (decode texts ack_kind framed_hi ≡ err (invalid_frame_type 3))
unfolding encode_data_message
decode-encode_example = decode-encode texts data_kind ack_kind 7 (b'h' ∷ b'i' ∷ []) framed_hi refl

-- 1 MB is announced.
abbrev large : Text
large = 0 ∷ 16 ∷ 0 ∷ 0 ∷ []

large_panics : read_frame_optimized plain large ≡ panics
unfolding read_frame_optimized read_full get_u32 get_buffer
large_panics = refl

read_frame_optimized_lem_example : read_frame_optimized plain large ≡ (
    if ltb max_buffer_size (announced large) && leb (announced large) max_frame
    then panics
    else returns (read_frame plain large))
read_frame_optimized_lem_example = read_frame_optimized_lem plain large
