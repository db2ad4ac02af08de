-- ===== src/HeapPage/Layout.antt =====
-- When a page of records is well formed, for records of the given column types.
use model_lib.Prelude.{ℕ, ◌+◌, ◌*◌, ◌≤◌, ◌<◌, ◌≡◌, false, some, List}
use model_lib.Prelude.Int.{ℤ, pos, ltb_ℤ}
use model_lib.Page.{Page, size}
use model_lib.Value.{DataType, Value}
use model_lib.HeapPage.{get_dir_count, get_free_space, get_dir, read_values}

-- A slot is free, or it points at a record that stands from `lo` on and can be read.
pub data Slot (types : List DataType) (p : Page) (lo i : ℕ) : Type 0 where
  vacant : (d : ℤ) → get_dir p i ≡ some d → ltb_ℤ (pos 0) d ≡ false → Slot types p lo i
  live :
      (off : ℕ) (vs : List Value)
      → get_dir p i ≡ some (pos off)
      → 0 < off
      → lo ≤ off
      → read_values types p off ≡ some vs
      → Slot types p lo i

-- The slots and the free space lie in the page, and the records stand above both.
pub record IsLaidOut (types : List DataType) (p : Page) : Type 0 where
  pub count : ℕ
  pub free : ℕ
  pub count_is : get_dir_count p ≡ some (pos count)
  pub free_is : get_free_space p ≡ some (pos free)
  pub fits : 8 + 4 * count + free ≤ size
  pub slots : (i : ℕ) → i < count → Slot types p (8 + 4 * count + free) i
