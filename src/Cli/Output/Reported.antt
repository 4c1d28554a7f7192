-- ===== src/Cli/Output/Reported.antt =====
-- crates/heyl-cli/src/output.rs: each report under a JSON format is its document, and nothing else.
use heyl.Json.{Json}
