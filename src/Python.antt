-- ===== src/Python.antt =====
-- What the modelled code uses of Python's own library.
pub mod Text
pub mod Time
pub mod Sort
