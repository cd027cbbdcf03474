-- ===== src/FileLoader.antt =====
-- src/fileloader.h and src/fileloader.cpp: the properties of a node of a map file.
-- A stream is the list of the bytes that are left between its pointers; a template parameter T enters
-- as `sizeof(T)`, and a number is stored in the order of a little-endian host.
pub mod Escape
pub mod Stream
pub mod Tree
mod Examples
use otservbr_global.Common.{
  ℕ, Bool, true, false, not, ◌&&◌, Option, none, some, List, [], ◌∷◌, ◌++◌, ltb, ◌==◌,
  if◌then◌else◌, length, take, drop,
}
use otservbr_global.Common.Buffer.{le_bytes, le_value}

abbrev pub escape_char : ℕ
escape_char = 0xfd

-- The `copy_if` of `getProps`, with the value of `lastEscaped`.
unfoldable pub copy_unescaped : Bool → List ℕ → List ℕ
copy_unescaped last_escaped [] = []
copy_unescaped last_escaped (b ∷ bs) =
    let escaped = (b == escape_char) && not last_escaped in
    let rest = copy_unescaped escaped bs in if escaped then rest else b ∷ rest

-- `getProps` for the bytes between `propsBegin` and `propsEnd`: the stream, unless there are none.
pub get_props : List ℕ → Option (List ℕ)
get_props node = if length node == 0 then none else some (copy_unescaped false node)

-- The answer is `none` for `false`. The stream is that after the call.
pub read : ℕ → List ℕ → Option ℕ × List ℕ
read size stream =
    if ltb (length stream) size
    then (none, stream)
    else (some (le_value (take size stream)), drop size stream)

-- The characters behind a length that has been read.
pub read_characters : Option ℕ × List ℕ → Option (List ℕ) × List ℕ
read_characters (none, stream) = (none, stream)
read_characters (some str_len, stream) =
    if ltb (length stream) str_len
    then (none, stream)
    else (some (take str_len stream), drop str_len stream)

pub read_string : List ℕ → Option (List ℕ) × List ℕ
read_string stream = read_characters (read 2 stream)

pub skip : ℕ → List ℕ → Bool × List ℕ
skip n stream = if ltb (length stream) n then (false, stream) else (true, drop n stream)

-- The buffer of a `PropWriteStream`.
pub write : ℕ → ℕ → List ℕ → List ℕ
write size value buffer = buffer ++ le_bytes size value

pub write_string : List ℕ → List ℕ → List ℕ
write_string text buffer =
    if ltb 65535 (length text) then write 2 0 buffer else write 2 (length text) buffer ++ text
