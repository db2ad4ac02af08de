-- ===== src/Tests/Strings.antt =====
-- Two string values in memory, and an assignment that moves one to the other.
use model_lib.Prelude.{ℕ, ◌≡◌, none, some, [], ◌∷◌, refl}
use model_lib.Value.Store.{Memory, new_str, value_at}
use model_lib.Value.Store.Changes.{IsOwned, absent}
use model_lib.Value.Store.Construct.{new_str-Gives}
use model_lib.Value.Store.Calls.{Call, assign_move_at, run, after, run-Answers}

abbrev empty : Memory
empty = record { blocks = λ p. none; next = 0; objects = λ o. none }

empty-IsOwned : IsOwned empty
empty-IsOwned = record {
  typed = λ o. absent;
  owned = record {
    live = λ o p e. absurd (cc e);
    apart = λ o o' p e e'. absurd (cc e);
    no_leak = λ p s e. absurd (cc e);
    below = λ p s e. absurd (cc e);
  };
}

abbrev one : Memory
one = new_str empty 0 (97 ∷ [])

one-IsOwned : IsOwned one
one-IsOwned = (new_str-Gives empty empty-IsOwned 0 (97 ∷ []) refl).0

abbrev two : Memory
two = new_str one 1 (98 ∷ [])

two-IsOwned : IsOwned two
two-IsOwned = (new_str-Gives one one-IsOwned 1 (98 ∷ []) refl).0

abbrev moves : Call
moves = assign_move_at 0 1

run-Answers_example :
    (m' : Memory) × (run moves two ≡ some m')
    × (IsOwned m' × ((j : ℕ) → value_at m' j ≡ after moves (value_at two) j))
run-Answers_example = run-Answers two moves two-IsOwned ((_, refl), (_, refl))
