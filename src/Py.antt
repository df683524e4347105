-- ===== src/Py.antt =====
-- What the scripts use of Python itself: text, dictionaries and JSON values.
pub mod Str
pub mod Num
pub mod Dict
pub mod Json
pub mod Regex
pub mod Text
pub mod Sort
pub mod Path
pub mod Repr
