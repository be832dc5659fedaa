-- ===== src/Constants.antt =====
-- The constants of the SGF standard (src/SgfcConstants.cpp, src/SgfcPrivateConstants.cpp) with the
-- functions of src/SgfcUtility.cpp that look them up.
pub mod Names
pub mod Categories
