-- ===== src/Python.antt =====
-- What the program uses of Python's `str`, and the exceptions that it raises and catches.
pub mod Text
pub mod Utf8
pub mod Payload
pub mod Integer
pub mod Object
pub mod Dict
use gaggia_esp_c3_mini_serve.Prelude.{ℕ, List}

-- The exceptions that cross a function of the model. A `RuntimeError` carries its text;
-- `other_error` is a TypeError, a KeyError or a struct.error, which nothing tells apart.
pub data Raised : Type 0 where
  runtime_error : List ℕ → Raised
  value_error : Raised
  overflow_error : Raised
  other_error : Raised
