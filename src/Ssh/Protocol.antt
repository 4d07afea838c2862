-- ===== src/Ssh/Protocol.antt =====
-- pkg/ssh/protocol.go: the header at the front of a stream, and the request to forward a port.
-- A reader is the bytes that it has yet to give, and it ends after them; what a function writes is
-- the bytes of its single Write.
pub mod RoundTrip
use quic_flow.Prelude.{
  ℕ, suc, ◌+◌, ◌%◌, ltb, ◌==◌, if◌then◌else◌, Bool, true, false, Option, none, some, List, [], ◌∷◌,
  ◌++◌, length, take, drop, get_elem?,
}
use quic_flow.Prelude.Text.{Text}
use quic_flow.Prelude.Bytes.{
  ReadFull, full, eof, unexpected_eof, read_full, put_u32, put_u16, get_u32, get_u16,
}

-- "QSSH".
abbrev pub magic_number : ℕ
magic_number = 0x51534853

abbrev pub protocol_version : ℕ
protocol_version = 1

abbrev pub header_size : ℕ
header_size = 6

pub record StreamHeader : Type 0 where
  pub magic : ℕ
  pub version : ℕ
  pub stream_type : ℕ

pub data ProtocolError : Type 0 where
  failed_to_read_header invalid_magic : ProtocolError
  unsupported_version : ℕ → ProtocolError
  host_name_too_long : ℕ → ProtocolError
  failed_to_read_host_length host_name_empty failed_to_read_host : ProtocolError

pub data Result {ℓ} (A : Type ℓ) : Type ℓ where
  ok : A → Result A
  err : ProtocolError → Result A

unfoldable pub write_header : ℕ → Text
write_header stream_type = put_u32 magic_number ++ (protocol_version ∷ (stream_type % 256) ∷ [])

-- The bytes behind the magic number.
byte_at : ℕ → Text → ℕ
byte_at i b = elim (get_elem? b i) [ none ↦ 0 | some x ↦ x ]

header_of : Text → StreamHeader
unfolding byte_at
header_of b = record {
  magic = get_u32 (take 4 b);
  version = byte_at 4 b;
  stream_type = byte_at 5 b;
}

check_header : ReadFull → Result (StreamHeader × Text)
unfolding header_of
check_header eof = err failed_to_read_header
check_header (unexpected_eof _) = err failed_to_read_header
check_header (full b rest) =
    let h = header_of b in
    if h.magic == magic_number
    then (if h.version == protocol_version
        then ok (h, rest)
        else err (unsupported_version h.version))
    else err invalid_magic

-- The header and what is left of the stream.
unfoldable pub read_header : Text → Result (StreamHeader × Text)
unfolding check_header
read_header s = check_header (read_full header_size s)

-- What TryReadHeader gives: the header, or the bytes that it has taken from a stream of another kind;
-- with either, what is left of the stream.
pub data Tried : Type 0 where
  header : StreamHeader → Text → Tried
  peeked : Text → Text → Tried

try_header : ReadFull → Result Tried
unfolding header_of
try_header eof = ok (peeked [] [])
try_header (unexpected_eof b) = ok (peeked b [])
try_header (full b rest) =
    let h = header_of b in
    if h.magic == magic_number
    then (if h.version == protocol_version
        then ok (header h rest)
        else err (unsupported_version h.version))
    else ok (peeked b rest)

unfoldable pub try_read_header : Text → Result Tried
unfolding try_header
try_read_header s = try_header (read_full header_size s)

pub record PortForwardRequest : Type 0 where
  pub host : Text
  pub port : ℕ

unfoldable pub write_port_forward_request : PortForwardRequest → Result Text
write_port_forward_request r =
    if ltb 255 (length r.host)
    then err (host_name_too_long (length r.host))
    else ok ((length r.host % 256) ∷ (r.host ++ put_u16 r.port))

read_host : ℕ → ReadFull → Result (PortForwardRequest × Text)
read_host n (full b rest) = ok (record { host = take n b; port = get_u16 (drop n b) }, rest)
read_host n eof = err failed_to_read_host
read_host n (unexpected_eof _) = err failed_to_read_host

read_host_length : ReadFull → Result (PortForwardRequest × Text)
unfolding read_host byte_at
read_host_length (full b rest) =
    let n = byte_at 0 b in
    if n == 0 then err host_name_empty else read_host n (read_full (n + 2) rest)
read_host_length eof = err failed_to_read_host_length
read_host_length (unexpected_eof _) = err failed_to_read_host_length

unfoldable pub read_port_forward_request : Text → Result (PortForwardRequest × Text)
unfolding read_host_length
read_port_forward_request s = read_host_length (read_full 1 s)
