-- ===== src/Codec/Pooled.antt =====
-- pkg/transport/codec/optimized.go: reading frames into buffers of pkg/pool/buffer.go.
-- A buffer is its capacity: GetBuffer gives length 0, and reslicing past the capacity panics.
use quic_flow.Prelude.{
  Outcome, returns, panics, ℕ, ◌*◌, ◌≡◌, refl, ltb, leb, ◌==◌, ◌&&◌, if◌then◌else◌, arith,
}
use quic_flow.Prelude.Text.{Text}
use quic_flow.Prelude.Bytes.{ReadFull, full, eof, unexpected_eof, read_full, get_u32}
use quic_flow.Codec.{
  Protobuf, Frame, Result, err, eof_in_length, failed_in_length, zero_length, too_large, max_frame,
  read_data, read_length, read_frame,
}

abbrev small_buffer_size : ℕ
small_buffer_size = 1 * 1024

abbrev medium_buffer_size : ℕ
medium_buffer_size = 8 * 1024

abbrev large_buffer_size : ℕ
large_buffer_size = 32 * 1024

abbrev pub max_buffer_size : ℕ
max_buffer_size = 256 * 1024

-- The capacity of the buffer for a size.
unfoldable pub get_buffer : ℕ → ℕ
get_buffer size =
    if leb size small_buffer_size
    then small_buffer_size
    else if leb size medium_buffer_size
    then medium_buffer_size
    else if leb size large_buffer_size
    then large_buffer_size
    else max_buffer_size

announced_in : ReadFull → ℕ
announced_in (full b _) = get_u32 b
announced_in eof = 0
announced_in (unexpected_eof _) = 0

-- The length that stands at the front of a stream; 0 where there are fewer than 4 bytes.
unfoldable pub announced : Text → ℕ
unfolding announced_in
announced s = announced_in (read_full 4 s)

module _ (p : Protobuf Frame) where
  -- `data[:length]` of a pooled buffer, and the rest of the function.
  read_pooled : ℕ → ℕ → Text → Outcome (Result (Frame × Text))
  unfolding read_data
  read_pooled n capacity rest =
      if ltb capacity n then panics else returns (read_data p (read_full n rest))

  pooled_length : ReadFull → Outcome (Result (Frame × Text))
  unfolding read_pooled
  pooled_length eof = returns (err eof_in_length)
  pooled_length (unexpected_eof _) = returns (err failed_in_length)
  pooled_length (full b rest) =
      let n = get_u32 b in
      if n == 0
      then returns (err zero_length)
      else if ltb max_frame n
      then returns (err (too_large n))
      else read_pooled n (get_buffer n) rest

  unfoldable pub read_frame_optimized : Text → Outcome (Result (Frame × Text))
  unfolding pooled_length
  read_frame_optimized s = pooled_length (read_full 4 s)

  pooled_length-eq :
      (r : ReadFull)
      → pooled_length r ≡ (
          let n = announced_in r in
          if ltb max_buffer_size n && leb n max_frame then panics else returns (read_length p r))
  unfolding pooled_length read_pooled get_buffer read_length announced_in
  pooled_length-eq eof = refl
  pooled_length-eq (unexpected_eof b) = refl
  pooled_length-eq (full b rest) = ground arith

  -- ReadFrameOptimized panics exactly on a stream that announces more than 256 KB and not more than
  -- 10 MB; on every other stream it returns what ReadFrame returns, errors included.
  pub read_frame_optimized_lem :
      (s : Text)
      → read_frame_optimized s ≡ (
          if ltb max_buffer_size (announced s) && leb (announced s) max_frame
          then panics
          else returns (read_frame p s))
  unfolding read_frame_optimized announced read_frame
  read_frame_optimized_lem s = pooled_length-eq (read_full 4 s)
