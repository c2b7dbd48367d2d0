-- ===== src/Stdio.antt =====
-- src/file.c, `write_to` and `read_from`: one positioned transfer through a descriptor's stream.
pub mod Overwrite
pub mod Transfer
pub mod Holds
pub mod Keeps
use solidbits.Prelude.{
  ◌^◌, ℕ, ◌+◌, ◌-◌, ◌<◌, ◌≡◌, Bool, true, false, Option, none, some, List, [], ◌∷◌, take, drop,
  length, ltb, ◌||◌, if◌then◌else◌,
}
use solidbits.Store.{
  Node, regular, node_bytes, Stream, Desc, Store, M, pure, undefined, ◌>>=◌, ◌>>◌, next_fault,
  get_desc, put_desc, get_node, put_node, overwrite,
}

-- Whether a call went wrong, and how much of a transfer took place.
abbrev pub failed : Option ℕ → Bool
failed none = false
failed (some k) = true

abbrev pub transferred : Option ℕ → List ℕ → List ℕ
transferred none bs = bs
transferred (some k) bs = take k bs

-- The stream of a descriptor; through NULL every use is undefined.
abbrev pub stream_of : ℕ → M Stream
stream_of dt = do d ← get_desc dt; elim d.fd [ none ↦ undefined | some f ↦ pure f ]

-- `fseek(dt->fd.glibc, offset, SEEK_SET)`: whether it failed. On failure the position stays.
pub fseek : ℕ → ℕ → M Bool
unfolding next_fault
fseek dt offset = do
  f ← stream_of dt
  fault ← next_fault
  d ← get_desc dt
  if failed fault
      then pure true
      else do put_desc dt (record d { fd = some (record f { pos = offset }) }); pure false

-- `fread(buf, 1, size, dt->fd.glibc)`: the bytes that reach the buffer.
pub fread : ℕ → ℕ → M (List ℕ)
unfolding next_fault
fread dt size = do
  f ← stream_of dt
  fault ← next_fault
  node ← get_node f.path
  let got = transferred fault (take size (drop f.pos (node_bytes node)))
  d ← get_desc dt
  put_desc dt (record d {
    fd = some (record f { pos = f.pos + length got; error = f.error || failed fault });
  })
  pure got

-- `fwrite(buf, 1, size, dt->fd.glibc)`: the count of bytes that reach the file.
pub fwrite : ℕ → List ℕ → M ℕ
unfolding next_fault
fwrite dt buf = do
  f ← stream_of dt
  fault ← next_fault
  node ← get_node f.path
  let sent = transferred fault buf
  put_node f.path (regular (overwrite (node_bytes node) f.pos sent))
  d ← get_desc dt
  put_desc dt (record d {
    fd = some (record f { pos = f.pos + length sent; error = f.error || failed fault });
  })
  pure (length sent)

-- `ferror` and `ftell` of the stream. A -1 of `ftell` is compared and stored as a size_t.
abbrev pub ferror : ℕ → M Bool
ferror dt = do f ← stream_of dt; pure f.error

pub ftell : ℕ → M ℕ
unfolding next_fault
ftell dt = do
  f ← stream_of dt
  fault ← next_fault
  pure (if failed fault then 2 ^ 64 - 1 else f.pos)

-- `if (ftell(dt->fd.glibc) > dt->length) dt->length = ftell(dt->fd.glibc);`
unfoldable pub grow_length : ℕ → M (Unit {0})
unfolding ftell
grow_length dt = do
  p ← ftell dt
  d ← get_desc dt
  if ltb d.length p then (ftell dt >>= λ q. put_desc dt (record d { length = q })) else pure tt

unfoldable pub write_to : ℕ → List ℕ → ℕ → M ℕ
unfolding fseek fwrite grow_length
write_to dt buf offset = do
  bad_seek ← fseek dt offset
  if bad_seek
      then pure 0
      else do r ← fwrite dt buf; bad ← ferror dt; if bad then pure 0 else do grow_length dt; pure r

-- The bytes that reach the buffer, and the value returned. The result of `fseek` is not looked at.
unfoldable pub read_from : ℕ → ℕ → ℕ → M (List ℕ × ℕ)
unfolding fseek fread
read_from dt size offset = do
  _ ← fseek dt offset
  got ← fread dt size
  bad ← ferror dt
  if bad then pure (got, 0) else pure (got, length got)
