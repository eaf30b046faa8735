-- ===== src/Bytes.antt =====
-- Byte arrays and `encoding/binary` in big-endian order, as page.go and key.go use them.
mod Defs
mod Laws
unfoldable pub use Defs.{be_bytes, be_decode, read_bytes, write_bytes, uint64}
pub use Laws.*
