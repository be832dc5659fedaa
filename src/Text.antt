-- ===== src/Text.antt =====
-- Texts as lists of bytes: the string functions of src/SgfcUtility.cpp, and numbers as text.
pub mod Split
pub mod Number
