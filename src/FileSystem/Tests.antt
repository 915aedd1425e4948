-- ===== src/FileSystem/Tests.antt =====
-- Runs of the file gateways over an object store in memory.
use bi_ble_atlas.Base.{
  ◌≢◌, false, String, ◌≡◌, refl, true, Option, none, some, [], ◌∷◌, ◌++◌, is_empty, if◌then◌else◌,
  length, All, strip, is_space, filter, split, arith,
}
use bi_ble_atlas.Base.Result.{Result, ok, raise}
use bi_ble_atlas.FileSystem.{FileStoreResult}
use bi_ble_atlas.FileSystem.Segment.{
  sanitize_segment, sanitize_filename, storage_parts, build_storage_path, is_alphanumeric, is_mark,
}
use bi_ble_atlas.FileSystem.Segment.Laws.{IsSafe, storage_parts-IsSafe}
use bi_ble_atlas.FileSystem.Hash.{Bytes, Hasher, Stream, unread, read_and_hash}
use bi_ble_atlas.FileSystem.Hash.Laws.{append_assoc, append-[], read_and_hash-whole}
use bi_ble_atlas.FileSystem.Object.{
  Failure, ObjectClient, Gateway, replaced, contains, minio_gateway, store, open_read, exists,
  delete,
}
use bi_ble_atlas.FileSystem.Object.Laws.{IsStored, object_of, store-open_read, delete-exists}

-- A hash that remembers what it was given.
abbrev remembering : Hasher
remembering = record {
  State = Bytes;
  new = [];
  update = λ chunk s. s ++ chunk;
  hexdigest = λ s. if is_empty s then "empty" else "filled";
  update-[] = append-[];
  update-append = λ a b s. append_assoc s a b;
}

abbrev Objects : Type 0
Objects = String → String → Option Bytes

abbrev no_such_key : Failure
no_such_key = record { code = "NoSuchKey"; response = none; text = "" }

abbrev found : Option Bytes → Result Failure Bytes
found none = raise no_such_key
found (some content) = ok content

abbrev checked : Option Bytes → Result Failure (Unit {0})
checked none = raise no_such_key
checked (some content) = ok tt

abbrev nothing : Objects
nothing bucket key = none

found-some : (o : Option Bytes) {content : Bytes} → o ≡ some content → found o ≡ ok content
found-some none h = cc
found-some (some c) h = cc

checked-some : (o : Option Bytes) {content : Bytes} → o ≡ some content → checked o ≡ ok tt
checked-some none h = cc
checked-some (some c) h = refl

checked-none : (o : Option Bytes) → o ≡ none → (e : Failure) × (checked o ≡ raise e)
checked-none none h = (no_such_key, refl)
checked-none (some c) h = cc

abbrev memory : ObjectClient
memory = record {
  State = Objects;
  objects = λ s. s;
  reachable = λ s. true;
  put_object = λ bucket key content size s. (ok tt, replaced bucket key (some content) s);
  get_object = λ bucket key s. found (s bucket key);
  stat_object = λ bucket key s. checked (s bucket key);
  remove_object = λ bucket key s. (ok tt, replaced bucket key none s);
  put_object-ok = λ bucket key content s up. (refl, refl, λ b k. refl);
  get_object-ok = λ bucket key s up there. found-some (s bucket key) there;
  stat_object-ok = λ bucket key s up there. checked-some (s bucket key) there;
  stat_object-missing = λ bucket key s up gone. checked-none (s bucket key) gone;
  remove_object-ok = λ bucket key s up. (refl, refl, λ b k. refl);
}

abbrev gateway : Gateway
gateway = minio_gateway memory "bible" "/files/" remembering 2

abbrev upload : Stream
upload = record { content = 1 ∷ 2 ∷ 3 ∷ []; position = 1; can_seek = true }

segment_cleaned : sanitize_segment " ../a b/.. " "default" ≡ "a_b"
unfolding sanitize_segment is_alphanumeric is_mark strip is_space
segment_cleaned = refl

filename_cleaned : sanitize_filename "../docs/a  b.md" ≡ "a_b.md"
unfolding sanitize_filename is_alphanumeric is_mark strip filter split is_space
filename_cleaned = refl

path_built :
    build_storage_path "20260522" (some "MEMORY") none "../x.md" none
    ≡ "MEMORY/20260522/default/x.md"
unfolding build_storage_path is_alphanumeric is_mark filter sanitize_segment strip is_space
    sanitize_filename split
path_built = refl

read_in_windows : read_and_hash remembering 2 upload ≡ (1 ∷ 2 ∷ 3 ∷ [], "filled", 3)
unfolding read_and_hash
read_in_windows = refl

needle_found : contains "404" "status 404" ≡ true
unfolding contains
needle_found = refl

storage_parts-IsSafe_example :
    All IsSafe (storage_parts "20260522" (some "../MEMORY") none "/../.." (some "a/b"))
unfolding is_alphanumeric is_mark
storage_parts-IsSafe_example =
    storage_parts-IsSafe "20260522" (some "../MEMORY") none "/../.." (some "a/b") refl

read_and_hash-whole_example : read_and_hash remembering 2 upload ≡ (
  unread upload,
  remembering.hexdigest (remembering.update (unread upload) remembering.new),
  length (unread upload),
)
read_and_hash-whole_example = read_and_hash-whole remembering 2 upload (omega arith)

store-open_read_example :
    (r : FileStoreResult) × (t : Objects) × (store gateway "20260522" upload
        (some "MEMORY")
        none
        "x.md"
        none
        nothing
      ≡ (ok r, t))
    × (r.storage_path ≡ build_storage_path "20260522" (some "MEMORY") none "x.md" none)
    × IsStored gateway upload.content nothing r t
    × (open_read gateway r.storage_path t ≡ ok upload.content)
    × (exists gateway r.storage_path t ≡ true)
store-open_read_example =
    store-open_read gateway "20260522" upload (some "MEMORY") none "x.md" none nothing refl
      (omega arith) refl

abbrev one_file : Objects
one_file = replaced "bible" "files/MEMORY/x.md" (some (1 ∷ [])) nothing

delete-exists_example :
    ((delete gateway "MEMORY/x.md" one_file).0 ≡ true)
    × (exists gateway "MEMORY/x.md" (delete gateway "MEMORY/x.md" one_file).1 ≡ false)
    × ((other : String)
        → other ≢ "MEMORY/x.md"
        → object_of gateway (delete gateway "MEMORY/x.md" one_file).1 other
          ≡ object_of gateway one_file other)
delete-exists_example = delete-exists gateway "MEMORY/x.md" one_file refl
