-- ===== src/Std.antt =====
-- What the program uses of Go's standard library, over bytes: UTF-8, strings, float64, hex, base64,
-- sorting and encoding/json. These modules model no file of the repository; they follow the
-- documented behaviour of the packages.
pub mod Utf8
pub mod Strings
pub mod Float
pub mod Value
pub mod Sort
pub mod Duration
pub mod Ip
pub mod Sha256
pub mod Json
mod Tests
