-- ===== src/FileSystem/Hash/Laws.antt =====
-- Reading window by window is reading at once.
use bi_ble_atlas.Base.{
  true, ℕ, zero, suc, ◌+◌, ◌<◌, ◌≡◌, refl, sym, ap, ◌∙◌, [], ◌∷◌, ◌++◌, length, arith,
}
use bi_ble_atlas.Database.Chunked.{take, drop, take-drop, length-drop}
use bi_ble_atlas.FileSystem.Hash.{
  Bytes, Hasher, Stream, unread, Progress, add_chunk, read_chunks, read_and_hash,
}

pub append_assoc : (a b c : Bytes) → (a ++ b) ++ c ≡ a ++ (b ++ c)
append_assoc [] b c = refl
append_assoc (x ∷ a) b c = ap (λ xs. x ∷ xs) (append_assoc a b c)

pub append-[] : (a : Bytes) → a ++ [] ≡ a
append-[] [] = refl
append-[] (x ∷ a) = ap (λ xs. x ∷ xs) (append-[] a)

length-append : (a b : Bytes) → length (a ++ b) ≡ length a + length b
length-append [] b = omega arith
length-append (x ∷ a) b = omega (arith, length-append a b)

Progress-ext :
    (h : Hasher) (p q : Progress h)
    → p.buf ≡ q.buf
    → p.hasher ≡ q.hasher
    → p.size_bytes ≡ q.size_bytes
    → p ≡ q
Progress-ext h p q e f g = λ i. record { buf = e i; hasher = f i; size_bytes = g i }

add_chunk-[] : (h : Hasher) (p : Progress h) → add_chunk h [] p ≡ p
add_chunk-[] h p =
    Progress-ext h (add_chunk h [] p) p (append-[] p.buf) (h.update-[] p.hasher) (omega arith)

add_chunk-append :
    (h : Hasher) (a b : Bytes) (p : Progress h)
    → add_chunk h b (add_chunk h a p) ≡ add_chunk h (a ++ b) p
add_chunk-append h a b p =
    Progress-ext h (add_chunk h b (add_chunk h a p)) (add_chunk h (a ++ b) p)
      (append_assoc p.buf a b) (h.update-append a b p.hasher) (omega (arith, length-append a b))

read_chunks-whole :
    (h : Hasher) (size rounds : ℕ) (rest : Bytes) (p : Progress h)
    → length rest < rounds
    → read_chunks h (suc size) rounds rest p ≡ add_chunk h rest p
unfolding read_chunks take drop
read_chunks-whole h size zero rest p e = absurd (omega arith)
read_chunks-whole h size (suc rounds) [] p e = sym (add_chunk-[] h p)
read_chunks-whole h size (suc rounds) (x ∷ rest) p e =
    read_chunks-whole h size rounds (drop size rest) (add_chunk h (x ∷ take size rest) p)
      (omega (arith, length-drop size rest))
    ∙ add_chunk-append h (x ∷ take size rest) (drop size rest) p
    ∙ ap (λ xs. add_chunk h (x ∷ xs) p) (take-drop size rest)

read_and_hash-suc :
    (h : Hasher) (size : ℕ) (s : Stream)
    → read_and_hash h (suc size) s
      ≡ (unread s, h.hexdigest (h.update (unread s) h.new), length (unread s))
unfolding read_and_hash
read_and_hash-suc h size s =
    ap (λ (p : Progress h). (p.buf, h.hexdigest p.hasher, p.size_bytes))
      (read_chunks-whole h size (suc (length (unread s))) (unread s)
        (record { buf = []; hasher = h.new; size_bytes = 0 }) (omega arith))
    ∙ ap (λ n. (unread s, h.hexdigest (h.update (unread s) h.new), n)) zero-plus
  where
    zero-plus : 0 + length (unread s) ≡ length (unread s)
    zero-plus = omega arith

-- Reading a stream chunk by chunk, with a chunk size that is not 0, ends, and gives what is unread of it,
-- the digest of one update by all of that, and its length.
pub read_and_hash-whole :
    (h : Hasher) (chunk_size : ℕ) (s : Stream)
    → 0 < chunk_size
    → read_and_hash h chunk_size s
      ≡ (unread s, h.hexdigest (h.update (unread s) h.new), length (unread s))
read_and_hash-whole h zero s positive = absurd (omega arith)
read_and_hash-whole h (suc size) s positive = read_and_hash-suc h size s

-- A stream that can be rewound is read from its start.
pub read_and_hash-content :
    (h : Hasher) (chunk_size : ℕ) (s : Stream)
    → s.can_seek ≡ true
    → 0 < chunk_size
    → read_and_hash h chunk_size s
      ≡ (s.content, h.hexdigest (h.update s.content h.new), length s.content)
unfolding unread
read_and_hash-content h chunk_size s seekable positive =
    read_and_hash-whole h chunk_size s positive
    ∙ ap (λ (content : Bytes). (content, h.hexdigest (h.update content h.new), length content))
        whole
  where
    whole : unread s ≡ s.content
    whole = rw (seekable) refl
