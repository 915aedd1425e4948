-- ===== src/Upload/Skill.antt =====
-- bible/features/upload/skill_upload/parsers/skill_parser: the parser of skill packages.
mod Tests
pub mod Zip
pub mod Markdown
pub mod Package
