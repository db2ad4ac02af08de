-- ===== src/BPlusTree/Order.antt =====
-- The entries of the index are in one strict total order.
use model_lib.Prelude.{◌≡◌, ◌↔◌, true, false, arith}
use model_lib.BPlusTree.{BPlusTreeRecord, less, equal}

abbrev pub ◌⊏◌ : BPlusTreeRecord → BPlusTreeRecord → Type 0
◌⊏◌ a b = less a b ≡ true

pub less_trans : (a b c : BPlusTreeRecord) → less a b ≡ true → less b c ≡ true → less a c ≡ true
unfolding less
less_trans a b c h k = ground arith

pub less_irrefl : (a : BPlusTreeRecord) → less a a ≡ false
unfolding less
less_irrefl a = ground arith

pub equal_iff : (a b : BPlusTreeRecord) → (equal a b ≡ true) ↔ (a ≡ b)
unfolding equal
equal_iff a b = ground arith

pub less_total : (a b : BPlusTreeRecord) → less a b ≡ false → less b a ≡ false → a ≡ b
unfolding less
less_total a b h k = ground arith

pub less_asymm : (a b : BPlusTreeRecord) → less a b ≡ true → less b a ≡ false
unfolding less
less_asymm a b h = ground arith
