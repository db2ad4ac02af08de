-- ===== src/HeapFile/Oversize.antt =====
-- `HeapFile::insert_record` of a record that is larger than a page.
use model_lib.Prelude.{ℕ, zero, suc, ◌+◌, ◌<◌, ◌≡◌, refl, none, List, ◌∷◌, map}
use model_lib.Page.{size}
use model_lib.Value.{Value, datatype}
use model_lib.HeapPage.{record_size}
use model_lib.HeapPage.Insert.{try_insert_record_oversize}
use model_lib.HeapFile.{HeapFile, insert_loop}
use model_lib.HeapFile.Pages.{IsHeapFile, open_page, passed, passed-IsHeapFile}

-- Into a well formed heap file a record that does not fit an empty page is inserted after no
-- number of rounds.
pub insert_loop_oversize :
    (fuel : ℕ) (f : HeapFile) (v : Value) (vs : List Value)
    → IsHeapFile (map datatype (v ∷ vs)) f
    → size < record_size (v ∷ vs) + 12
    → insert_loop fuel f (v ∷ vs) ≡ none
unfolding insert_loop
insert_loop_oversize zero f v vs h large = refl
insert_loop_oversize (suc fuel) f v vs h large =
    let types = map datatype (v ∷ vs) in
    let opened = open_page types f f.last_insert_page h in
    rw (opened.done, try_insert_record_oversize opened.page v vs opened.in_use.laid large)
      (insert_loop_oversize fuel (passed types f h opened) v vs (passed-IsHeapFile types f h opened)
        large)
