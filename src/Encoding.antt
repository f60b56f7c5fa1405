-- ===== src/Encoding.antt =====
-- What the program uses of Go's `encoding/hex`, `encoding/base64` and `math/big`, over lists of
-- bytes. The texts that the program decodes are lists of bytes too.
pub mod Hex
pub mod Base64
pub mod BigInt
pub mod Text
pub mod FilePath
pub mod Header
