-- ===== src/Ci.antt =====
-- ci: the scripts of the continuous integration.
pub mod LicenseHeaders
