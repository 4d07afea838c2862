-- ===== src/Codec/Streams.antt =====
-- Sequences of frames on one stream, written and read by pkg/transport/codec/protobuf.go.
use mathlib.Core.List.{append_assoc, append-nil}
use quic_flow.Prelude.{
  ℕ, zero, suc, ◌≤◌, ◌<◌, ◌%◌, ◌≡◌, refl, sym, ap, ◌∙◌, ltb, leb, ◌&&◌, Bool, true, false, Option,
  none, some, List, [], ◌∷◌, ◌++◌, length, All, arith,
}
use quic_flow.Prelude.Text.{Text}
use quic_flow.Prelude.Bytes.{full, read_full, read_full-append, put_u32, get_u32, get_u32-put_u32}
use quic_flow.Codec.{
  Protobuf, Frame, Result, ok, err, CodecError, max_frame, decode_frame, unmarshalled, marshalled,
  encode_frame, read_data, read_length, read_frame, write_data, write_frame,
}

-- A frame that has an encoding, of 1 byte to 10 MB.
abbrev pub sized : Option Text → Bool
sized none = false
sized (some b) = ltb 0 (length b) && leb (length b) max_frame

module _ (p : Protobuf Frame) where
  -- The bytes of a frame with its length before them.
  bytes : Option Text → Text
  bytes none = []
  bytes (some b) = put_u32 (length b) ++ b

  wire : List Frame → Text
  wire [] = []
  wire (f ∷ fs) = bytes (p.marshal f) ++ wire fs

  read_length-full :
      (head tail : Text) (n : ℕ)
      → get_u32 head ≡ n
      → 0 < n
      → n ≤ max_frame
      → read_length p (full head tail) ≡ read_data p (read_full n tail)
  unfolding read_length
  read_length-full head tail n e pos most = rw e (ground arith)

  read_data-full :
      (f : Frame) (b rest : Text)
      → 0 < length b
      → p.marshal f ≡ some b
      → read_data p (full b rest) ≡ ok (f, rest)
  unfolding read_data decode_frame unmarshalled
  read_data-full f b rest pos e = ground (arith, p.unmarshal-marshal f b e)

  read_frame-bytes :
      (f : Frame) (o : Option Text) (rest : Text)
      → p.marshal f ≡ o
      → sized o ≡ true
      → read_frame p (bytes o ++ rest) ≡ ok (f, rest)
  unfolding bytes read_frame
  read_frame-bytes f none rest e h = ground arith
  read_frame-bytes f (some b) rest e h =
      ap (read_length p) (read_full-append (put_u32 (length b)) (b ++ rest))
      ∙ read_length-full (put_u32 (length b)) (b ++ rest) (length b)
          (get_u32-put_u32 (length b) (ground arith)) (ground arith) (ground arith)
      ∙ ap (read_data p) (read_full-append b rest)
      ∙ read_data-full f b rest (ground arith) e

  -- ReadFrame, as often as a number says.
  unfoldable pub read_frames : ℕ → Text → Result (List Frame × Text)
  read_frames zero s = ok ([], s)
  read_frames (suc n) s = elim (read_frame p s) [
    | err e ↦ err e
    | ok (f, rest) ↦ elim (read_frames n rest) [ err e ↦ err e | ok (fs, end) ↦ ok (f ∷ fs, end) ]
  ]

  abbrev pub IsSized : Frame → Type 0
  IsSized f = sized (p.marshal f) ≡ true

  read_frames-wire :
      (fs : List Frame) (rest : Text)
      → All IsSized fs
      → read_frames (length fs) (wire fs ++ rest) ≡ ok (fs, rest)
  unfolding read_frames wire
  read_frames-wire [] rest h = refl
  read_frames-wire (f ∷ fs) rest h =
      let assoc = append_assoc (bytes (p.marshal f)) (wire fs) rest in
      let first = read_frame-bytes f (p.marshal f) (wire fs ++ rest) refl h.0 in
      let ih = read_frames-wire fs rest h.1 in ground arith

  -- WriteFrame of each frame, up to the first error.
  unfoldable pub write_frames :
      {W : Type 0} → (W → Text → W × ℕ × Bool) → W → List Frame → W × Option CodecError
  write_frames write w [] = (w, none)
  write_frames write w (f ∷ fs) =
      let (w', e) = write_frame p write w (some f) in
      let rest = write_frames write w' fs in elim e [ none ↦ rest | some x ↦ (w', some x) ]

  module _ {W : Type 0} (write : W → Text → W × ℕ × Bool) (content : W → Text)
      (complete : (w : W) (b : Text)
        → (content (write w b).0 ≡ content w ++ b)
          × ((write w b).1 ≡ length b)
          × ((write w b).2 ≡ false)) where
    write_data-done :
        (b : Text) (r : W × ℕ × Bool)
        → r.2 ≡ false
        → (content (write_data p write b r).0 ≡ content r.0 ++ b)
          × ((write_data p write b r).1 ≡ none)
    unfolding write_data
    write_data-done b (w, n, true) h = ground arith
    write_data-done b (w, n, false) h = ground (arith, complete w b)

    encoded :
        (w : W) (f : Frame) (b : Text)
        → p.marshal f ≡ some b
        → write_frame p write w (some f)
          ≡ write_data p write b (write w (put_u32 (length b % 4294967296)))
    unfolding write_frame encode_frame marshalled
    encoded w f b e = ground (arith, e)

    write_frame-bytes :
        (w : W) (f : Frame) (o : Option Text)
        → p.marshal f ≡ o
        → sized o ≡ true
        → (content (write_frame p write w (some f)).0 ≡ content w ++ bytes o)
          × ((write_frame p write w (some f)).1 ≡ none)
    unfolding bytes
    write_frame-bytes w f none e h = ground arith
    write_frame-bytes w f (some b) e h =
        let m : length b % 4294967296 ≡ length b = ground arith in
        let head = put_u32 (length b) in
        let (held, _, fine) = complete w head in
        let (more, done) = write_data-done b (write w head) fine in
        let run = encoded w f b e ∙ ap (λ n. write_data p write b (write w (put_u32 n))) m in
        (
          ap (λ r. content r.0) run
              ∙ more
              ∙ ap (λ c. c ++ b) held
              ∙ append_assoc (content w) head b,
          ap (λ r. r.1) run ∙ done,
        )

    write_frames-wire :
        (w : W) (fs : List Frame)
        → All IsSized fs
        → (content (write_frames write w fs).0 ≡ content w ++ wire fs)
          × ((write_frames write w fs).1 ≡ none)
    unfolding write_frames wire
    write_frames-wire w [] h = (sym (append-nil (content w)), refl)
    write_frames-wire w (f ∷ fs) h =
        let w' = (write_frame p write w (some f)).0 in
        let assoc = append_assoc (content w) (bytes (p.marshal f)) (wire fs) in
        ground (arith, write_frame-bytes w f (p.marshal f) refl h.0, write_frames-wire w' fs h.1)

    -- Frames whose encodings have 1 byte to 10 MB, written one after another to an empty writer that
    -- takes every write in full: there is no error, and reading as many frames from what was written
    -- gives the same frames in order, with nothing left.
    pub read_frames-write_frames :
        (w : W) (fs : List Frame)
        → content w ≡ []
        → All IsSized fs
        → ((write_frames write w fs).1 ≡ none)
          × (read_frames (length fs) (content (write_frames write w fs).0) ≡ ok (fs, []))
    read_frames-write_frames w fs empty h =
        let (held, done) = write_frames-wire w fs h in
        let all = held ∙ ap (λ c. c ++ wire fs) empty ∙ sym (append-nil (wire fs)) in
        (done, ap (read_frames (length fs)) all ∙ read_frames-wire fs [] h)
