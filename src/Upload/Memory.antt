-- ===== src/Upload/Memory.antt =====
-- bible/features/upload/memory_upload: the import of a memory, a file meta.json with attachments.
mod Tests
pub mod Manifest
pub mod Meta
pub mod Chunk
pub mod Profile
pub mod Attachments
pub mod Served
