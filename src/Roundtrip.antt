-- ===== src/Roundtrip.antt =====
-- From the upload through both tables to the download.
pub mod Table
pub mod Pieces
pub mod Download
pub mod Pipeline
pub mod Arrives
