-- ===== src/Compiler.antt =====
-- crates/ferrum-compiler: the encoder of the FEBP program.
pub mod Writer
pub mod Encode
pub mod Carries
pub mod Meaning
pub mod Ends
pub mod RoundTrip
