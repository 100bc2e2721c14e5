-- ===== src/Python.antt =====
-- What the source uses of Python: texts, JSON values, and the calls of the standard library.
pub mod Text
pub mod Lines
pub mod Json
