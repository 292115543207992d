-- ===== src/Prelude/Classes.antt =====
-- Equality tests as an interface, and the library's hash map as a list of entries.
use Prim.Native.Nat.{ℕ}
use mathlib.Core.Path.{◌≡◌, refl}
use mathlib.Core.Logic.{◌↔◌}
use mathlib.Core.Bool.{Bool, true, false, ◌&&◌}
use mathlib.Core.Option.{Option, none, some}
use mathlib.Core.List.{List, [], ◌∷◌}
use native.Mathlib.Omega.{arith}
use order_book.Prelude.Tests.{if◌then◌else◌, ◌==◌}

pub record Eq {ℓ} (A : Type ℓ) : Type ℓ where
  pub beq : A → A → Bool
  pub beq_iff : (a b : A) → (beq a b ≡ true) ↔ (a ≡ b)

pub nat_beq_iff : (a b : ℕ) → ((a == b) ≡ true) ↔ (a ≡ b)
nat_beq_iff a b = ground arith

instance abbrev pub nat_eq : Eq ℕ
nat_eq = record { beq = ◌==◌; beq_iff = nat_beq_iff }

-- Texts as their bytes.
abbrev pub Text : Type 0
Text = List ℕ

unfoldable pub text_beq : Text → Text → Bool
text_beq [] [] = true
text_beq [] (b ∷ bs) = false
text_beq (a ∷ as') [] = false
text_beq (a ∷ as') (b ∷ bs) = a == b && text_beq as' bs

pub text_beq_iff : (s t : Text) → (text_beq s t ≡ true) ↔ (s ≡ t)
unfolding text_beq
text_beq_iff [] [] = (λ _. refl, λ _. refl)
text_beq_iff [] (b ∷ bs) = (λ h. cc, λ h. cc)
text_beq_iff (a ∷ as') [] = (λ h. cc, λ h. cc)
text_beq_iff (a ∷ as') (b ∷ bs) = ground (arith, text_beq_iff as' bs)

instance abbrev pub text_eq : Eq Text
text_eq = record { beq = text_beq; beq_iff = text_beq_iff }

-- `HashMap`: the entries, each key once.
module _ {ℓ κ} {K : Type ℓ} {V : Type κ} ⦃e : Eq K⦄ where
  unfoldable pub map_get : K → List (K × V) → Option V
  map_get k [] = none
  map_get k ((j, v) ∷ m) = if e.beq k j then some v else map_get k m

  unfoldable pub map_insert : K → V → List (K × V) → List (K × V)
  map_insert k v [] = (k, v) ∷ []
  map_insert k v ((j, w) ∷ m) = if e.beq k j then (k, v) ∷ m else (j, w) ∷ map_insert k v m

  unfoldable pub map_remove : K → List (K × V) → List (K × V)
  map_remove k [] = []
  map_remove k ((j, v) ∷ m) = let rest = map_remove k m in if e.beq k j then rest else (j, v) ∷ rest

  pub map_get-map_insert :
      (k j : K) (v : V) (m : List (K × V))
      → map_get k (map_insert j v m) ≡ (if e.beq k j then some v else map_get k m)
  unfolding map_get map_insert
  map_get-map_insert k j v [] = refl
  map_get-map_insert k j v ((i, w) ∷ m) =
      ground (arith, e.beq_iff k j, e.beq_iff j i, e.beq_iff k i, map_get-map_insert k j v m)

  pub map_get-map_remove :
      (k j : K) (m : List (K × V))
      → map_get k (map_remove j m) ≡ (if e.beq k j then none else map_get k m)
  unfolding map_get map_remove
  map_get-map_remove k j [] = ground arith
  map_get-map_remove k j ((i, w) ∷ m) =
      ground (arith, e.beq_iff k j, e.beq_iff j i, e.beq_iff k i, map_get-map_remove k j m)
