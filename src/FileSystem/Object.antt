-- ===== src/FileSystem/Object.antt =====
-- The gateways of minio.py and s3.py, which keep a file as an object of a bucket. The two classes are one
-- text but for the calls' names, the word in the messages, and the test for a missing object.
pub mod Laws
use Prim.Native.String.{[] as no_text, ◌∷◌ as char_before}
use bi_ble_atlas.Base.{
  ℕ, String, ◌≡◌, Bool, true, false, ◌&&◌, ◌||◌, Option, none, some, [], ◌∷◌, ◌==◌, nat_eq,
  if◌then◌else◌, length, or_else, text_append, starts_with,
}
use bi_ble_atlas.Base.Result.{Result, ok, raise}
use bi_ble_atlas.Database.Step.{Step, ◌>>=◌, continue_with, pure, rescue}
use bi_ble_atlas.FileSystem.{FileStoreResult, FileSystemError, file_store_failed, file_not_found}
use bi_ble_atlas.FileSystem.Segment.{
  sanitize_segment, sanitize_filename, build_storage_path, to_object_key, strip_slashes,
}
use bi_ble_atlas.FileSystem.Hash.{Bytes, Hasher, Stream, read_and_hash}

-- What an exception of a client says: its `code`, its `response` (the error's code and the status), and
-- its text.
pub record Failure : Type 0 where
  pub code : String
  pub response : Option (String × ℕ)
  pub text : String

-- `needle in text`
unfoldable pub contains : (needle text : String) → Bool
unfolding starts_with
contains needle no_text = starts_with needle no_text
contains needle (char_before c s) =
    let rest = contains needle s in starts_with needle (char_before c s) || rest

unfoldable pub is_minio_not_found : Failure → Bool
unfolding contains
is_minio_not_found e =
    contains "NoSuchKey" e.code
    || contains "NoSuchKey" e.text
    || contains "NoSuchObject" e.text
    || contains "404" e.code

unfoldable pub is_s3_not_found : Failure → Bool
unfolding contains
is_s3_not_found e = elim e.response [
  | none ↦ contains "404" e.text || contains "NoSuchKey" e.text
  | some response ↦
      let (code, status) = response in code == "404" || code == "NoSuchKey" || nat_eq status 404
]

-- The objects after one of them is put, or is removed.
abbrev pub replaced :
    (bucket key : String)
    → Option Bytes
    → (String → String → Option Bytes)
    → String
    → String
    → Option Bytes
replaced bucket key object objects b k = if (bucket == b) && (key == k) then object else objects b k

-- The client of an object store, `minio.Minio` or `boto3.client("s3")`, with the documented behaviour of the
-- calls that the gateways make. Where the service is reachable, a put stores the object, a get and a stat
-- find what is there and raise for what is not, and a removal succeeds, also for an object that is not there.
pub record ObjectClient : Type 1 where
  pub State : Type 0
  pub objects : State → String → String → Option Bytes
  pub reachable : State → Bool
  pub put_object :
      (bucket key : String) (content : Bytes) (size : ℕ) → Step State Failure (Unit {0})
  pub get_object : (bucket key : String) → State → Result Failure Bytes
  pub stat_object : (bucket key : String) → State → Result Failure (Unit {0})
  pub remove_object : (bucket key : String) → Step State Failure (Unit {0})
  pub put_object-ok :
      (bucket key : String) (content : Bytes) (s : State)
      → reachable s ≡ true
      → ((put_object bucket key content (length content) s).0 ≡ ok tt)
        × (reachable (put_object bucket key content (length content) s).1 ≡ true)
        × ((b k : String)
            → objects (put_object bucket key content (length content) s).1 b k
              ≡ replaced bucket key (some content) (objects s) b k)
  pub get_object-ok :
      (bucket key : String) (s : State) {content : Bytes}
      → reachable s ≡ true
      → objects s bucket key ≡ some content
      → get_object bucket key s ≡ ok content
  pub stat_object-ok :
      (bucket key : String) (s : State) {content : Bytes}
      → reachable s ≡ true
      → objects s bucket key ≡ some content
      → stat_object bucket key s ≡ ok tt
  pub stat_object-missing :
      (bucket key : String) (s : State)
      → reachable s ≡ true
      → objects s bucket key ≡ none
      → (e : Failure) × (stat_object bucket key s ≡ raise e)
  pub remove_object-ok :
      (bucket key : String) (s : State)
      → reachable s ≡ true
      → ((remove_object bucket key s).0 ≡ ok tt)
        × (reachable (remove_object bucket key s).1 ≡ true)
        × ((b k : String)
            → objects (remove_object bucket key s).1 b k ≡ replaced bucket key none (objects s) b k)

-- A gateway, with what its class fixes: the word in the messages and the test for a missing object.
pub record Gateway : Type 1 where
  pub client : ObjectClient
  pub bucket : String
  pub prefix : String
  pub hash : Hasher
  pub chunk_size : ℕ
  pub service : String
  pub is_not_found : Failure → Bool

-- `__init__`
abbrev pub minio_gateway :
    (client : ObjectClient) (bucket prefix : String) (hash : Hasher) (chunk_size : ℕ) → Gateway
minio_gateway client bucket prefix hash chunk_size = record {
  client = client;
  bucket = bucket;
  prefix = strip_slashes prefix;
  hash = hash;
  chunk_size = chunk_size;
  service = "MinIO";
  is_not_found = is_minio_not_found;
}

abbrev pub s3_gateway :
    (client : ObjectClient) (bucket prefix : String) (hash : Hasher) (chunk_size : ℕ) → Gateway
s3_gateway client bucket prefix hash chunk_size = record {
  client = client;
  bucket = bucket;
  prefix = strip_slashes prefix;
  hash = hash;
  chunk_size = chunk_size;
  service = "S3";
  is_not_found = is_s3_not_found;
}

module _ (g : Gateway) where
  abbrev pub key_of : (storage_path : String) → String
  key_of storage_path = to_object_key storage_path g.prefix

  abbrev pub failed_to_store : (key : String) → Failure → FileSystemError
  failed_to_store key e = record {
    code = file_store_failed;
    message = text_append "Failed to store object to " (
        text_append g.service
          (text_append " bucket '" (text_append g.bucket (text_append "': " e.text))));
    details = ("bucket", g.bucket) ∷ ("key", key) ∷ [];
  }

  -- The answer of a put, as the result that `store` returns or the error that it raises.
  abbrev pub put_answer :
      (key : String)
      → FileStoreResult
      → Result Failure (Unit {0}) × g.client.State
      → Result FileSystemError FileStoreResult × g.client.State
  put_answer key r answer = continue_with (λ _. pure r) (rescue (failed_to_store key) answer)

  -- `store` once the stream has been read.
  unfoldable pub put_read :
      (date_part : String) (domain kb_index : Option String) (filename : String)
      (task_id : Option String) (read : Bytes × String × ℕ)
      → Step g.client.State FileSystemError FileStoreResult
  unfolding build_storage_path to_object_key sanitize_segment sanitize_filename
  put_read date_part domain kb_index filename task_id (buf, file_hash, size_bytes) s =
      let storage_path = build_storage_path date_part domain kb_index filename task_id in
      put_answer (key_of storage_path)
        (record {
          storage_path = storage_path;
          file_hash = file_hash;
          size_bytes = size_bytes;
          filename = sanitize_filename filename;
          domain = sanitize_segment (or_else domain "") "UNKNOWN";
          kb_index = sanitize_segment (or_else kb_index "") "default";
        })
        (g.client.put_object g.bucket (key_of storage_path) buf size_bytes s)

  -- `store`; `date_part` is the day of the clock, in digits.
  unfoldable pub store :
      (date_part : String) (file_stream : Stream) (domain kb_index : Option String)
      (filename : String) (task_id : Option String)
      → Step g.client.State FileSystemError FileStoreResult
  unfolding read_and_hash put_read
  store date_part file_stream domain kb_index filename task_id s =
      put_read date_part domain kb_index filename task_id
        (read_and_hash g.hash g.chunk_size file_stream) s

  abbrev pub failed_to_read : (storage_path : String) → Failure → FileSystemError
  failed_to_read storage_path e =
      if g.is_not_found e
      then record {
        code = file_not_found;
        message =
            text_append "Object not found in "
              (text_append g.service (text_append ": " storage_path));
        details = [];
      }
      else record {
        code = file_not_found;
        message =
            text_append "Failed to read object from "
              (text_append g.service (text_append ": " e.text));
        details = ("bucket", g.bucket) ∷ ("key", key_of storage_path) ∷ [];
      }

  abbrev pub read_answer :
      (storage_path : String) → Result Failure Bytes → Result FileSystemError Bytes
  read_answer storage_path (ok content) = ok content
  read_answer storage_path (raise e) = raise (failed_to_read storage_path e)

  -- `open_read`: the bytes that the stream will give.
  unfoldable pub open_read : (storage_path : String) → g.client.State → Result FileSystemError Bytes
  unfolding to_object_key
  open_read storage_path s =
      read_answer storage_path (g.client.get_object g.bucket (key_of storage_path) s)

  abbrev pub returned : {A : Type 0} → Result Failure A → Bool
  returned (ok a) = true
  returned (raise e) = false

  -- `exists`: false for a missing object, and, with a warning, for any other exception.
  unfoldable pub exists : (storage_path : String) → g.client.State → Bool
  unfolding to_object_key
  exists storage_path s = returned (g.client.stat_object g.bucket (key_of storage_path) s)

  unfoldable pub delete : (storage_path : String) → g.client.State → Bool × g.client.State
  unfolding to_object_key
  delete storage_path s =
      let (r, t) = g.client.remove_object g.bucket (key_of storage_path) s in (returned r, t)
