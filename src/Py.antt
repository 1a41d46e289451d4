-- ===== src/Py.antt =====
-- The Python runtime as far as the package uses it: exceptions, values, comparisons, numbers as
-- text and as bytes, and what the standard library supplies as a parameter.
pub mod Result
pub mod Value
pub mod Number
pub mod Compare
pub mod Integers
pub mod Hex
pub mod Env
pub mod Convert
pub mod Sorted
