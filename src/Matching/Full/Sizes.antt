-- ===== src/Matching/Full/Sizes.antt =====
-- Resting orders of the book of src/orderbook.rs whose quantities are positive u64s in whole lots, and
-- the levels that a matcher of src/allocation.rs is shown of them.
use order_book.Prelude.{
  ℕ, suc, ◌+◌, ◌∣◌, ◌<◌, ◌≡◌, refl, ap, subst, List, [], ◌∷◌, inl, inr, arith, map, sum, length,
  All, u64_mod, text_beq, Bool-cases,
}
use order_book.Instrument.{Qty}
use order_book.Allocation.{Maker, MatchingAlgorithm}
use order_book.Allocation.Contract.Shares.{remaining, IsU64Level, IsLots, sum-IsLots}
use order_book.Allocation.Contract.Sound.{Clauses}
use order_book.Types.{ClientId, Order}
use order_book.OrderQueue.{SlotMap}
use order_book.OrderQueue.Chain.{Entries}
use order_book.OrderQueue.Walk.{of_others}
use order_book.Matching.Fillable.{others_left}
use order_book.Matching.Full.Fills.{Positive}
use order_book.Matching.Full.Passes.{level_makers, InU64}

-- A matcher that keeps the contract for takers and levels of u64 quantities in whole lots.
abbrev pub KeepsContract : ℕ → MatchingAlgorithm → Type 0
KeepsContract lot matcher =
    (available : Qty) (makers : List Maker) (now : ℕ)
    → available < u64_mod
    → IsU64Level makers
    → lot ∣ available
    → IsLots lot (remaining makers)
    → Clauses (matcher.allocate available makers now) available makers lot

-- A positive u64 quantity in whole lots.
abbrev pub IsSized : ℕ → Order → Type 0
IsSized lot o =
    (0 < o.remaining_quantity) × (o.remaining_quantity < u64_mod) × (lot ∣ o.remaining_quantity)

module _ (slots : SlotMap) (lot : ℕ) where
  open slots use {Key}

  abbrev pub AreSized : Entries slots → Type 0
  AreSized = All (λ (e : Key × Order). IsSized lot e.1)

  pub of_others-AreSized :
      (client : ClientId) (es : Entries slots) → AreSized es → AreSized (of_others slots client es)
  of_others-AreSized client [] h = tt
  of_others-AreSized client ((k, o) ∷ es) h = elim (Bool-cases (text_beq o.client_id client)) [
    | inl t ↦ rw t (of_others-AreSized client es h.1)
    | inr t ↦ rw t (h.0, of_others-AreSized client es h.1)
  ]

  pub AreSized-Positive : (es : Entries slots) → AreSized es → Positive (level_makers slots es)
  AreSized-Positive [] h = tt
  AreSized-Positive (e ∷ es) h = (h.0.0, AreSized-Positive es h.1)

  pub AreSized-InU64 : (es : Entries slots) → AreSized es → InU64 slots es
  AreSized-InU64 [] h = tt
  AreSized-InU64 (e ∷ es) h = (h.0.1, AreSized-InU64 es h.1)

  pub AreSized-IsLots :
      (es : Entries slots) → AreSized es → IsLots lot (remaining (level_makers slots es))
  AreSized-IsLots [] h = tt
  AreSized-IsLots (e ∷ es) h = (h.0.2, AreSized-IsLots es h.1)

  each_in_u64 :
      (es : Entries slots)
      → AreSized es
      → All (λ (m : Maker). m.remaining_quantity < u64_mod) (level_makers slots es)
  each_in_u64 [] h = tt
  each_in_u64 (e ∷ es) h = (h.0.1, each_in_u64 es h.1)

  pub length-level_makers : (es : Entries slots) → length (level_makers slots es) ≡ length es
  length-level_makers [] = refl
  length-level_makers (e ∷ es) = ap suc (length-level_makers es)

  pub AreSized-IsU64Level :
      (es : Entries slots) → AreSized es → length es < u64_mod → IsU64Level (level_makers slots es)
  AreSized-IsU64Level es h n = record {
    each = each_in_u64 es h;
    count = omega (arith, length-level_makers es, n);
  }

  -- The makers shown to the matcher have what the other clients offer.
  pub remaining-others_left :
      (client : ClientId) (es : Entries slots)
      → sum (remaining (level_makers slots (of_others slots client es)))
        ≡ others_left client (map (λ e. e.1) es)
  remaining-others_left client [] = refl
  remaining-others_left client ((k, o) ∷ es) = elim (Bool-cases (text_beq o.client_id client)) [
    | inl t ↦ rw t (remaining-others_left client es)
    | inr t ↦ rw t (ap (λ n. o.remaining_quantity + n) (remaining-others_left client es))
  ]

  pub others_left-IsLots :
      (client : ClientId) (es : Entries slots)
      → AreSized es
      → lot ∣ others_left client (map (λ e. e.1) es)
  others_left-IsLots client es h =
      subst (λ n. lot ∣ n) (remaining-others_left client es)
        (sum-IsLots lot (remaining (level_makers slots (of_others slots client es)))
          (AreSized-IsLots (of_others slots client es) (of_others-AreSized client es h)))
