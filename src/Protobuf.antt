-- ===== src/Protobuf.antt =====
-- Protocol buffers as wa/peerreq.py writes them and wa/pbutil.py reads them.
pub mod Writer
pub mod Reader
pub mod Varint
pub mod RoundTrip
pub mod Lookup
pub mod Total
