-- ===== src/Prelude/Ordered.antt =====
-- `BTreeMap` with numbers as keys: the entries in the map's order, each key once. `before` is the
-- order of the keys, `ltb` or, for `Reverse`, its converse.
use Prim.Native.Nat.{ℕ}
use mathlib.Core.Bool.{Bool}
use mathlib.Core.List.{List, [], ◌∷◌}
use mathlib.Core.Option.{Option, none, some}
use order_book.Prelude.Tests.{if◌then◌else◌, ◌==◌}

module _ {ℓ} {V : Type ℓ} where
  unfoldable pub tree_insert : (ℕ → ℕ → Bool) → ℕ → V → List (ℕ × V) → List (ℕ × V)
  tree_insert before k v [] = (k, v) ∷ []
  tree_insert before k v ((j, w) ∷ m) =
      if k == j
      then (k, v) ∷ m
      else if before k j
      then (k, v) ∷ (j, w) ∷ m
      else (j, w) ∷ tree_insert before k v m

  unfoldable pub tree_last : List (ℕ × V) → Option (ℕ × V)
  tree_last [] = none
  tree_last (e ∷ m) = elim (tree_last m) [ none ↦ some e | some l ↦ some l ]

  unfoldable pub tree_first : List (ℕ × V) → Option (ℕ × V)
  tree_first [] = none
  tree_first (e ∷ m) = some e
