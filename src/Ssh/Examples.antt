-- ===== src/Ssh/Examples.antt =====
-- Tests and examples for pkg/ssh.
use quic_flow.Prelude.{◌≡◌, [], ◌∷◌, ◌++◌, arith}
use quic_flow.Prelude.Text.{Text}
use quic_flow.Ssh.Protocol.{
  ok, read_header, write_header, try_read_header, header, PortForwardRequest,
}
use quic_flow.Ssh.Protocol.RoundTrip.{header_for, read_header-write_header}

read_header-write_header_example :
    (read_header (write_header 1 ++ (9 ∷ [])) ≡ ok (header_for 1, 9 ∷ []))
    × (try_read_header (write_header 1 ++ (9 ∷ [])) ≡ ok (header (header_for 1) (9 ∷ [])))
read_header-write_header_example = read_header-write_header 1 (9 ∷ []) (omega arith)

abbrev short : Text
short = b'h' ∷ b'i' ∷ []

abbrev request : PortForwardRequest
request = record { host = b'd' ∷ b'b' ∷ []; port = 5432 }
