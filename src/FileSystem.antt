-- ===== src/FileSystem.antt =====
-- bible/infrastructure/file_system: where uploaded files are stored. Here: the types of types.py.
pub mod Segment
pub mod Hash
pub mod Object
mod Tests
use bi_ble_atlas.Base.{ℕ, String}
use bi_ble_atlas.Base.Dict.{Dict}

pub record FileStoreResult : Type 0 where
  pub storage_path : String
  pub file_hash : String
  pub size_bytes : ℕ
  pub filename : String
  pub domain : String
  pub kb_index : String

pub data FileSystemErrorCode : Type 0 where
  file_store_failed file_not_found file_delete_failed invalid_storage_path
        file_system_backend_unsupported :
      FileSystemErrorCode

pub record FileSystemError : Type 0 where
  pub code : FileSystemErrorCode
  pub message : String
  -- the values are texts everywhere
  pub details : Dict String
