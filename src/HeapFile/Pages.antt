-- ===== src/HeapFile/Pages.antt =====
-- The pages of a heap file: opened by the constructor of `HeapFilePage`, and put back.
use Prim.Native.Nat.{max}
use model_lib.Prelude.{
  ℕ, ◌+◌, ◌-◌, ◌≤◌, ◌<◌, ◌≡◌, ◌≢◌, ◌∙◌, refl, ap, some, List, arith, dec_lt, ℕ_discrete,
}
use model_lib.Prelude.Int.{pos}
use model_lib.Page.{Page, size}
use model_lib.Value.{DataType}
use model_lib.HeapPage.{init, get_dir_count, record_size, try_insert_record}
use model_lib.HeapPage
use model_lib.HeapPage.Layout.{IsLaidOut}
use model_lib.HeapPage.Delete.{zeros, init-zeros, init_lem}
use model_lib.HeapFile.{HeapFile, set_page, get_record}

-- A page in use: it is well formed, and not taken for a new one.
pub record IsUsed (types : List DataType) (p : Page) : Type 0 where
  pub laid : IsLaidOut types p
  pub used : 0 < laid.count + laid.free

-- The pages of the file are in use, those behind it are zeros.
pub record IsHeapFile (types : List DataType) (f : HeapFile) : Type 0 where
  pub page : (n : ℕ) → n < f.page_count → IsUsed types (f.pages n)
  pub fresh : (n : ℕ) → f.page_count ≤ n → f.pages n ≡ zeros
  pub last : f.last_insert_page ≤ f.page_count

-- Page `n` has a slot `j`.
pub record HasSlot (f : HeapFile) (n j : ℕ) : Type 0 where
  pub page : Page
  pub count : ℕ
  pub opened : init (f.pages n) ≡ some page
  pub count_is : get_dir_count page ≡ some (pos count)
  pub inside : j < count

-- What opening a page gives.
pub record Opened (types : List DataType) (f : HeapFile) (n : ℕ) : Type 0 where
  pub page : Page
  pub done : init (f.pages n) ≡ some page
  pub in_use : IsUsed types page
  pub new : f.page_count ≤ n → in_use.laid.free ≡ size - 8

pub init-IsUsed : (types : List DataType) (p : Page) → IsUsed types p → init p ≡ some p
init-IsUsed types p u = init_lem types p u.laid u.used

pub open_page :
    (types : List DataType) (f : HeapFile) (n : ℕ) → IsHeapFile types f → Opened types f n
open_page types f n h = elim (dec_lt n f.page_count) [
  | yes lt ↦ record {
    page = f.pages n;
    done = init-IsUsed types (f.pages n) (h.page n lt);
    in_use = h.page n lt;
    new = λ le. absurd (omega arith);
  }
  | no ge ↦
      let (q, done, laid, count, free) = flat (init-zeros types) in
      record {
        page = q;
        done = ap init (h.fresh n (omega arith)) ∙ done;
        in_use = record { laid = laid; used = omega (arith, free) };
        new = λ le. free;
      }
]
  where
    flat :
        ((q : Page) × (init zeros ≡ some q)
          × ((laid : IsLaidOut types q) × (laid.count ≡ 0) × (laid.free ≡ size - 8)))
        → (q : Page) × (init zeros ≡ some q)
          × (laid : IsLaidOut types q) × (laid.count ≡ 0)
          × (laid.free ≡ size - 8)
    flat (q, done, (laid, count, free)) = (q, done, laid, count, free)

-- A page is put back.
module _ (types : List DataType) (f : HeapFile) (h : IsHeapFile types f) (n : ℕ)
    (near : n ≤ f.page_count) (q : Page) (u : IsUsed types q) where
  pub pages_here : (set_page f n q).pages n ≡ q
  unfolding set_page
  pages_here = ground arith

  pub pages_there : (m : ℕ) → m ≢ n → (set_page f n q).pages m ≡ f.pages m
  unfolding set_page
  pages_there m ne = ground arith

  page_count_set : (set_page f n q).page_count ≡ max f.page_count (n + 1)
  unfolding set_page
  page_count_set = refl

  pub set_page-IsHeapFile :
      (last : ℕ)
      → last ≤ n + 1
      → IsHeapFile types (record (set_page f n q) { last_insert_page = last })
  set_page-IsHeapFile last le = record {
    page = λ m lt. elim (ℕ_discrete m n) [
      | yes e ↦ rw (e, pages_here) u
      | no ne ↦ rw (pages_there m ne) (h.page m (let c = page_count_set in omega arith))
    ];
    fresh = λ m ge. let c = page_count_set in pages_there m (omega arith) ∙ h.fresh m (omega arith);
    last = let c = page_count_set in omega arith;
  }

pub get_record_opened :
    (f : HeapFile) (n slot : ℕ) (types : List DataType) (p : Page)
    → init (f.pages n) ≡ some p
    → get_record f n slot types ≡ HeapPage.get_record p slot types
unfolding get_record
get_record_opened f n slot types p e = rw e

pub get_record_congr :
    (f g : HeapFile) (n slot : ℕ) (types : List DataType)
    → f.pages n ≡ g.pages n
    → get_record f n slot types ≡ get_record g n slot types
unfolding get_record
get_record_congr f g n slot types e = rw e

-- A page that had no space: the search goes on in a file with the same records.
module _ (types : List DataType) (f : HeapFile) (h : IsHeapFile types f)
    (open_last : Opened types f f.last_insert_page) where
  abbrev pub passed : HeapFile
  passed = record (set_page f f.last_insert_page open_last.page) {
    last_insert_page = f.last_insert_page + 1;
  }

  pub passed-IsHeapFile : IsHeapFile types passed
  passed-IsHeapFile =
      set_page-IsHeapFile types f h f.last_insert_page h.last open_last.page open_last.in_use
        (f.last_insert_page + 1) (omega arith)
