-- ===== src/Ssh/Protocol/RoundTrip.antt =====
-- What is written by pkg/ssh/protocol.go is read back, and other streams lose no byte.
use mathlib.Core.List.{append-nil}
use quic_flow.Prelude.{
  ℕ, ◌+◌, ◌≤◌, ◌<◌, ◌%◌, ◌≡◌, refl, sym, ap, ◌∙◌, Bool, true, false, [], ◌∷◌, ◌++◌, length,
  length-append, arith,
}
use quic_flow.Prelude.Text.{Text}
use quic_flow.Prelude.Bytes.{
  ReadFull, full, eof, unexpected_eof, read_full, read_full-append, seen, seen-read_full,
  take-append, drop-append, put_u16, get_u32, get_u16-put_u16,
}
use quic_flow.Ssh.Protocol.{
  magic_number, protocol_version, header_size, StreamHeader, failed_to_read_header, invalid_magic,
  Result, ok, err, write_header, read_header, check_header, header_of, byte_at, header, peeked,
  try_header, try_read_header, PortForwardRequest, write_port_forward_request, read_host,
  read_host_length, read_port_forward_request,
}

abbrev pub header_for : ℕ → StreamHeader
header_for t = record { magic = magic_number; version = protocol_version; stream_type = t }

written_header : (t : ℕ) → t < 256 → header_of (write_header t) ≡ header_for t
unfolding header_of byte_at write_header get_u32
written_header t h = ground arith

-- A header that was written is read back by both readers, whatever follows it in the stream.
pub read_header-write_header :
    (t : ℕ) (rest : Text)
    → t < 256
    → (read_header (write_header t ++ rest) ≡ ok (header_for t, rest))
      × (try_read_header (write_header t ++ rest) ≡ ok (header (header_for t) rest))
unfolding read_header try_read_header write_header check_header try_header get_u32
read_header-write_header t rest h =
    let e = written_header t h in
    let whole = read_full-append (write_header t) rest in
    (ap check_header whole ∙ rw e (refl), ap try_header whole ∙ rw e (refl))

-- Whether a reader accepted a header, found the version wrong, or saw a stream of another kind.
abbrev pub refused : Result (StreamHeader × Text) → Bool
refused (ok _) = false
refused (err failed_to_read_header) = true
refused (err invalid_magic) = true
refused (err _) = false

try_header-peeked :
    (r : ReadFull) (b rest : Text)
    → try_header r ≡ ok (peeked b rest)
    → (b ++ rest ≡ seen r) × (refused (check_header r) ≡ true)
unfolding try_header check_header
try_header-peeked eof b rest h = ground arith
try_header-peeked (unexpected_eof s) b rest h = ground (arith, append-nil s)
try_header-peeked (full s t) b rest h = ground arith

-- TryReadHeader loses no byte of a stream of another kind, also of one shorter than a header: the
-- bytes that it gives back and those that are left make up the stream. It gives bytes back only of
-- streams that ReadHeader refuses as too short or for their magic number.
pub try_read_header-peeked :
    (s b rest : Text)
    → try_read_header s ≡ ok (peeked b rest)
    → (b ++ rest ≡ s) × (refused (read_header s) ≡ true)
unfolding try_read_header read_header
try_read_header-peeked s b rest h =
    let (kept, no_header) = try_header-peeked (read_full header_size s) b rest h in
    (kept ∙ seen-read_full header_size s, no_header)

read_host_length-full :
    (n : ℕ) (s : Text)
    → 0 < n
    → read_host_length (full (n ∷ []) s) ≡ read_host n (read_full (n + 2) s)
unfolding read_host_length byte_at
read_host_length-full n s h = ground arith

read_host-full :
    (r : PortForwardRequest) (rest : Text)
    → r.port < 65536
    → read_host (length r.host) (full (r.host ++ put_u16 r.port) rest) ≡ ok (r, rest)
unfolding read_host
read_host-full r rest h =
    let a = take-append r.host (put_u16 r.port) in
    let b = drop-append r.host (put_u16 r.port) in
    let c = get_u16-put_u16 r.port h in rw (a, b, c) (refl)

-- A request with a host of 1 to 255 bytes and a 16-bit port is written, and is read back as it was,
-- whatever follows it in the stream.
pub read_port_forward_request-write :
    (r : PortForwardRequest) (rest : Text)
    → 0 < length r.host
    → length r.host ≤ 255
    → r.port < 65536
    → (b : Text) × (write_port_forward_request r ≡ ok b)
      × (read_port_forward_request (b ++ rest) ≡ ok (r, rest))
unfolding write_port_forward_request read_port_forward_request
read_port_forward_request-write r rest pos most port =
    let n = length r.host in
    let body = r.host ++ put_u16 r.port in
    let size : length body ≡ n + 2 = length-append r.host (put_u16 r.port) in
    let byte : n % 256 ≡ n = ground arith in
    (
      n ∷ body,
      ground arith,
      ap read_host_length (read_full-append (n ∷ []) (body ++ rest))
          ∙ read_host_length-full n (body ++ rest) pos
          ∙ ap (λ k. read_host n (read_full k (body ++ rest))) (sym size)
          ∙ ap (read_host n) (read_full-append body rest)
          ∙ read_host-full r rest port,
    )
