-- ===== src/Types/Ids.antt =====
-- `ExchangeId::from_sequence` of src/types.rs: the digits of a number tell it.
use order_book.Prelude.{
  ℕ, zero, suc, ◌+◌, ◌-◌, ◌*◌, ◌/◌, ◌%◌, ◌^◌, ◌<◌, ◌≡◌, ◌≢◌, refl, sym, ap, ◌∙◌, [], ◌∷◌, ◌++◌, ltb,
  arith, u64_mod, Text, Bool-cases, inl, inr,
}
use order_book.Types.{ExchangeId, decimal, from_sequence}

-- The number that decimal digits write, after the digits read so far.
abbrev value : ℕ → Text → ℕ
value acc [] = acc
value acc (d ∷ ds) = value (acc * 10 + (d - 48)) ds

value-snoc : (ds : Text) (acc d : ℕ) → value acc (ds ++ d ∷ []) ≡ value acc ds * 10 + (d - 48)
value-snoc [] acc d = refl
value-snoc (x ∷ ds) acc d = value-snoc ds (acc * 10 + (x - 48)) d

value-decimal : (fuel n : ℕ) → n < 10 ^ fuel → value 0 (decimal fuel n) ≡ n
unfolding decimal
value-decimal zero n h = omega arith
value-decimal (suc fuel) n h = elim (Bool-cases (ltb n 10)) [
  | inl e ↦ rw (e, value) (omega arith)
  | inr e ↦
      let higher = value-decimal fuel (n / 10) (omega arith) in
      rw (e, value-snoc (decimal fuel (n / 10)) 0 (48 + n % 10), higher) (omega arith)
]

abbrev digits : ExchangeId → Text
digits [] = []
digits (b ∷ bs) = bs

from_sequence-injective :
    (m n : ℕ) → m < u64_mod → n < u64_mod → from_sequence m ≡ from_sequence n → m ≡ n
unfolding from_sequence
from_sequence-injective m n h k e =
    let tail : decimal 20 m ≡ decimal 20 n =
      ap (λ s. digits (digits (digits (digits (digits (digits (digits s))))))) e in
    sym (value-decimal 20 m (omega arith)) ∙ ap (value 0) tail ∙ value-decimal 20 n (omega arith)

-- Different u64 sequence numbers have different exchange ids.
pub from_sequence-distinct :
    (m n : ℕ) → m < u64_mod → n < u64_mod → m ≢ n → from_sequence m ≢ from_sequence n
from_sequence-distinct m n h k d e = d (from_sequence-injective m n h k e)
