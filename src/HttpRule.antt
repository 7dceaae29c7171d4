-- ===== src/HttpRule.antt =====
-- internal/httprule: URL path templates, their parser and their matcher.
pub mod Template
pub mod Chars
pub mod Parse
pub mod Stack
pub mod Match
pub mod Tests
