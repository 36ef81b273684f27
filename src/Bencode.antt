-- ===== src/Bencode.antt =====
-- Bencode (bencode/encode.go, bencode/decode.go): integers, strings, lists and maps without a type of
-- their own, as they are held in an `interface{}`.
pub mod Number
pub mod Value
pub mod Encode
pub mod Decode
pub mod Order
pub mod RoundTrip
pub mod Raw
pub mod Evaluation
mod Tests
