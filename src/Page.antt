-- ===== src/Page.antt =====
-- src/storage/page.cc and page.h: a buffered page of 4096 bytes, read and written as bytes and as
-- integers at an offset. A failed `assert` is `none`. The bytes are a function of the offset, which
-- the asserts keep below `size`.
pub mod Laws
pub mod Access
use model_lib.Prelude.{
  ℕ, zero, suc, ◌+◌, ◌-◌, ◌≡◌, Bool, true, false, ◌&&◌, Option, none, some, List, [], ◌∷◌, ltb, leb,
  if◌then◌else◌, length, get_or, assert, ◌>>=◌, ◌>>◌,
}
use model_lib.Prelude.Int.{ℤ}
use model_lib.Word.{int32_bytes, bytes_int32, int64_bytes, bytes_int64}

-- `Page::SIZE`
abbrev pub size : ℕ
size = 4096

-- Memory from an address on.
abbrev pub Bytes : Type 0
Bytes = ℕ → ℕ

-- `memcpy` out of memory and into memory.
unfoldable pub load : Bytes → ℕ → ℕ → List ℕ
load m off zero = []
load m off (suc n) = m off ∷ load m (suc off) n

unfoldable pub store : Bytes → ℕ → List ℕ → Bytes
store m off xs i = if leb off i && ltb i (off + length xs) then get_or xs (i - off) 0 else m i

-- The part of `class Page` that these methods use.
pub record Page : Type 0 where
  pub bytes : Bytes
  pub dirty : Bool

unfoldable pub read : Page → ℕ → ℕ → Option (List ℕ)
read p off n = do assert (leb (off + n) size); some (load p.bytes off n)

unfoldable pub read_uint8 : Page → ℕ → Option ℕ
read_uint8 p off = do assert (leb (off + 1) size); some (p.bytes off)

unfoldable pub read_int32 : Page → ℕ → Option ℤ
read_int32 p off = do assert (leb (off + 4) size); some (bytes_int32 (load p.bytes off 4))

unfoldable pub read_int64 : Page → ℕ → Option ℤ
read_int64 p off = do assert (leb (off + 8) size); some (bytes_int64 (load p.bytes off 8))

-- What the four writes share once their assert has passed.
unfoldable pub put : Page → ℕ → List ℕ → Page
put p off xs = record { bytes = store p.bytes off xs; dirty = true }

-- `size` is the length of `xs` at every call of the program.
unfoldable pub write : Page → ℕ → List ℕ → Option Page
write p off xs = do assert (leb (off + length xs) size); some (put p off xs)

unfoldable pub write_int8 : Page → ℕ → ℕ → Option Page
write_int8 p off b = do assert (leb (off + 1) size); some (put p off (b ∷ []))

unfoldable pub write_int32 : Page → ℕ → ℤ → Option Page
write_int32 p off z = do assert (leb (off + 4) size); some (put p off (int32_bytes z))

unfoldable pub write_int64 : Page → ℕ → ℤ → Option Page
write_int64 p off z = do assert (leb (off + 8) size); some (put p off (int64_bytes z))
