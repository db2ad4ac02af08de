-- ===== src/Lib.antt =====
-- The storage engine of IIC3413-DB: a page buffer over files, heap files of records, and a B+
-- tree.
--
-- The parts, bottom up, and where they are modelled:
-- - Prelude, Word: tests on numbers, lists, the `Option` of code that may stop at an `assert`,
--   `int32_t` and `int64_t` as integers with their bytes (little endian, two's complement).
-- - Page: src/storage/page.cc. A page is its bytes, as a function of the offset; reads and writes
--   check their bounds, as the asserts do. Page/Laws and Page/Access say what a read gives after
--   a write.
-- - Value: src/relational_model/value.cc, schema.h and record.cc. Values with their order
--   (Value/Order), and records (Value/Records).
--   Value/Store has the memory of strings: copies, moves, assignments and the destructor.
-- - HeapPage: src/storage/heap_file/heap_file_page.cc. Records in a page, found through its slots
--   (`get_record`, `delete_record`, `try_insert_record`, `init` for the constructor).
--   HeapPage/Layout has the invariant of a page, HeapPage/Vacuum is `vacuum`, and HeapPage/Sound
--   has the invariant over all of the operations, and a page's records without their places.
-- - BPlusTree: src/storage/b_plus_tree/b_plus_tree_utils.h and src/storage/heap_file/rid.h.
--   Entries and their order. BPlusTree/Leaf and BPlusTree/Dir are the two kinds of node,
--   b_plus_tree_leaf.cc and b_plus_tree_dir.cc (BPlusTree/Dir/Root is the split of a full root),
--   BPlusTree/Tree is the way down the tree, for a search and for an insertion, and BPlusTree/Key
--   is `serialize_string_key` of b_plus_tree.cc.
-- - BPlusTree/Index: src/storage/b_plus_tree/b_plus_tree.cc and b_plus_tree_iter.cc. The index of
--   a column of a heap file: `get_iter`, `insert_record` and `delete_record` (Index/Update), and
--   the iterator over a range of keys (Index/Iter).
-- - FileManager: src/system/file_manager.cc. Files as sizes and bytes.
-- - Buffer: src/system/buffer_manager.cc with the frame state of src/storage/page.h. The frames,
--   the map from page identifiers to frames, and the clock that picks a victim; it calls the file
--   manager to read and to write pages. Buffer/Coherence has its invariant, and the bytes that a
--   user sees.
-- - HeapFile: src/storage/heap_file/heap_file.cc. A file of such pages, over what the buffer
--   shows of them; HeapFile/Pages has its invariant. HeapFile/Vacuum is its `vacuum`, and
--   HeapFile/Iter the iterator, heap_file_iter.cc.
-- - Catalog: src/system/catalog.cc. The catalog file (Catalog/File), the tables by name
--   (Catalog/Names), and the operations on the records of a table, on its heap file and its index
--   (Catalog/Tables).
-- - Programs: src/bin/create_table.cc. The arguments of the command line (Programs/Columns), and
--   the ends that the program comes to.
-- - Tests: the theorems at concrete inputs.
--
-- State is passed and returned. An operation that reaches a failed `assert` gives `none`; a
-- return value that says "no" is an inner `Option` or a value of its own. An operation on a page
-- takes the page, and the buffer hands pages out by the index of their frame.
--
-- Loops are recursive on fuel where the code's own measure is not structural: the search for a
-- slot takes one round per slot and one more, the binary searches one per entry and one more, the
-- clock two rounds of the buffer and one step, an insertion into a heap file one per page and two
-- more, a search and an insertion down the tree one per level, the iterator of a heap file 1024
-- per page, and `next` of the index one per entry and leaf that it passes. `create_index` takes
-- its rounds as an argument. Theorems that a result is returned show these to be enough.
--
-- A product in `int` that overflows, as the offsets of the file manager do from page 2 ^ 19 on,
-- has no meaning in the language: it is `none`, and theorems on the buffer ask for lower page
-- numbers.
--
-- Not modelled: the system calls (they are taken to succeed), memory management (but of
-- strings), the mutex (each call of `get_page` is one step), the other programs under src/bin,
-- and the ANTLR runtime under third_party. The branches that the source leaves to be written are
-- ends of their own in BPlusTree/Leaf. What an inner node does with the split of its child is
-- stated for any insertion into a leaf, since the one of the source comes to no split.
pub mod Prelude
pub mod Word
pub mod Page
pub mod Value
pub mod HeapPage
pub mod BPlusTree
pub mod FileManager
pub mod Buffer
pub mod Catalog
pub mod HeapFile
pub mod Programs
pub mod Tests
