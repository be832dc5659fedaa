-- ===== src/Date.antt =====
-- Game dates: src/game/SgfcDate.cpp, with the value type (`Date.Valid`), the decoder of the DT
-- property value (`Date.Decode`) and its encoder (`Date.Encode`).
pub mod Valid
pub mod Decode
pub mod Encode
