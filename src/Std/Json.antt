-- ===== src/Std/Json.antt =====
-- encoding/json: Unmarshal into `any` and into a map, Valid, a Decoder with UseNumber, and an
-- Encoder with SetEscapeHTML(false).
mod Numbers
mod Scan
mod Parse
mod Format
mod Encode
pub use Numbers.{Literal}
unfoldable pub use Numbers.{literal_value, scan_number}
unfoldable pub use Parse.{unmarshal, unmarshal_object, decode_numbers, valid}
unfoldable pub use Encode.{encode_value, marshal}
