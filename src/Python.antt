-- ===== src/Python.antt =====
-- What the scripts use of Python's language and standard library: exceptions, statements over
-- the script's variables, loops over the lines of a file, text, integers, floats and dicts.
pub mod Exception
pub mod Text
pub mod Pattern
pub mod Number
pub mod Floats
pub mod Statement
pub mod Csv
pub mod Dict
pub mod Arrays
pub mod Drawing
