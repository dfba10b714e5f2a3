-- ===== src/Js.antt =====
-- The parts of JavaScript and of its standard library that the modelled files use: values with
-- their coercions, thrown errors, numbers, JSON text and regular expressions.
pub mod Result
pub mod Number
pub mod Value
pub mod Json
pub mod Regex
pub mod Utf8
pub mod Uri
pub mod Decode
pub mod Base64
pub mod Pretty
pub mod Lower
