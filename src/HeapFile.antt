-- ===== src/HeapFile.antt =====
-- src/storage/heap_file/heap_file.cc: a file of pages of records. The pages stand for what the buffer
-- shows of them; a page behind the last one is all zeros, and opening it makes the file longer.
pub mod Pages
pub mod Insert
pub mod Oversize
pub mod Iter
pub mod Vacuum
use Prim.Native.Nat.{max}
use model_lib.Prelude.{ℕ, zero, suc, ◌+◌, Option, none, some, List, ◌==◌, if◌then◌else◌, ◌>>=◌}
use model_lib.Page.{Page}
use model_lib.Value.{DataType, Value}
use model_lib.HeapPage.{init, try_insert_record}
use model_lib.HeapPage

-- `class HeapFile`, with its pages.
pub record HeapFile : Type 0 where
  pub last_insert_page : ℕ
  pub page_count : ℕ
  pub pages : ℕ → Page

-- Page `n` as an operation leaves it.
unfoldable pub set_page : HeapFile → ℕ → Page → HeapFile
set_page f n p = record f {
  page_count = max f.page_count (n + 1);
  pages = λ j. if n == j then p else f.pages j;
}

-- What `insert_record` does with the answer of `try_insert_record`: it returns the record's
-- identifier, or goes on with the next page.
abbrev pub insert_end : HeapFile → Option ℕ → Option (HeapFile × ℕ × ℕ) → Option (HeapFile × ℕ × ℕ)
insert_end f (some slot) next = some (f, f.last_insert_page, slot)
insert_end f none next = next

-- The loop of `insert_record`; fuel that ran out is `none`.
unfoldable pub insert_loop : ℕ → HeapFile → List Value → Option (HeapFile × ℕ × ℕ)
insert_loop zero f vs = none
insert_loop (suc fuel) f vs = do
  p ← init (f.pages f.last_insert_page)
  (q, answer) ← try_insert_record p vs
  let f' = set_page f f.last_insert_page q
  insert_end f' answer
      (insert_loop fuel (record f' { last_insert_page = f.last_insert_page + 1 }) vs)

-- One round for each page, and one for a new page.
unfoldable pub insert_record : HeapFile → List Value → Option (HeapFile × ℕ × ℕ)
insert_record f vs = insert_loop (suc (suc f.page_count)) f vs

-- Of a page behind the last one, which opening it would add to the file, only the answer is kept.
unfoldable pub get_record : HeapFile → ℕ → ℕ → List DataType → Option (Option (List Value))
get_record f n slot types = do p ← init (f.pages n); HeapPage.get_record p slot types

unfoldable pub delete_record : HeapFile → ℕ → ℕ → Option HeapFile
delete_record f n slot = do
  p ← init (f.pages n)
  q ← HeapPage.delete_record p slot
  some (set_page f n q)
