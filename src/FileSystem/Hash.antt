-- ===== src/FileSystem/Hash.antt =====
-- `read_and_hash` of _utils.py: an uploaded stream, read window by window into a buffer and a digest.
pub mod Laws
use bi_ble_atlas.Base.{
  ℕ, zero, suc, ◌+◌, String, ◌≡◌, Bool, List, [], ◌∷◌, ◌++◌, if◌then◌else◌, length,
}
use bi_ble_atlas.Database.Chunked.{take, drop}

-- A byte string; each byte is a number below 256.
abbrev pub Bytes : Type 0
Bytes = List ℕ

-- A hash of `hashlib`, after `new(algo)`. As its documentation says, updates one after another are the
-- update by the concatenation of what they were given.
pub record Hasher : Type 1 where
  pub State : Type 0
  pub new : State
  pub update : Bytes → State → State
  pub hexdigest : State → String
  pub update-[] : (s : State) → update [] s ≡ s
  pub update-append : (a b : Bytes) (s : State) → update b (update a s) ≡ update (a ++ b) s

-- The binary stream of an upload: the bytes of the file, how many of them have been read, and whether
-- `seek` is there and does not raise.
pub record Stream : Type 0 where
  pub content : Bytes
  pub position : ℕ
  pub can_seek : Bool

-- What is left to read after `file_stream.seek(0)`, which is tried.
unfoldable pub unread : Stream → Bytes
unfolding drop
unread s = if s.can_seek then s.content else drop s.position s.content

-- The buffer, the digest's state and the count of the loop.
pub record Progress (h : Hasher) : Type 0 where
  pub buf : Bytes
  pub hasher : h.State
  pub size_bytes : ℕ

-- One round: the chunk is written, hashed and counted.
abbrev pub add_chunk : (h : Hasher) → Bytes → Progress h → Progress h
add_chunk h chunk p = record {
  buf = p.buf ++ chunk;
  hasher = h.update chunk p.hasher;
  size_bytes = p.size_bytes + length chunk;
}

-- The loop `while True`, which ends at the first empty chunk; `rounds` bounds the rounds.
unfoldable pub read_chunks : (h : Hasher) (chunk_size rounds : ℕ) → Bytes → Progress h → Progress h
unfolding take drop
read_chunks h chunk_size zero rest p = p
read_chunks h chunk_size (suc rounds) rest p = elim (take chunk_size rest) [
  | [] ↦ p
  | byte ∷ chunk ↦
      read_chunks h chunk_size rounds (drop chunk_size rest) (add_chunk h (byte ∷ chunk) p)
]

-- Each round takes a byte at least, so that one round for each byte and one more are enough.
unfoldable pub read_and_hash : (h : Hasher) (chunk_size : ℕ) → Stream → Bytes × String × ℕ
unfolding read_chunks unread
read_and_hash h chunk_size s =
    let p =
      read_chunks h chunk_size (suc (length (unread s))) (unread s)
        (record { buf = []; hasher = h.new; size_bytes = 0 }) in
    (p.buf, h.hexdigest p.hasher, p.size_bytes)
