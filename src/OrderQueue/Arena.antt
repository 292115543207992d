-- ===== src/OrderQueue/Arena.antt =====
-- A slot map that meets the laws assumed of the `slotmap` crate: a list of entries whose new key is
-- above every live one.
use order_book.Prelude.{
  ℕ, suc, ◌≡◌, ◌≤◌, refl, List, [], ◌∷◌, none, max, arith, map_get, map_insert, map_remove, nat_eq,
  map_get-map_insert, map_get-map_remove,
}
use order_book.OrderQueue.{SlotMap, IsSlotMap}

abbrev fresh_key {ℓ} : {V : Type ℓ} → List (ℕ × V) → ℕ
fresh_key [] = 0
fresh_key ((j, v) ∷ m) = max (suc j) (fresh_key m)

fresh_key_lem : {V : Type 0} (m : List (ℕ × V)) (k : ℕ) → fresh_key m ≤ k → map_get k m ≡ none
unfolding map_get
fresh_key_lem [] k h = refl
fresh_key_lem ((j, v) ∷ m) k h = ground (arith, fresh_key_lem m k (omega arith))

abbrev pub slots : SlotMap
slots = record {
  Key = ℕ;
  key_eq = nat_eq;
  Arena = λ V. List (ℕ × V);
  with_key = [];
  get = λ a k. map_get k a;
  insert = λ a v. ((fresh_key a, v) ∷ a, fresh_key a);
  set = λ a k v. map_insert k v a;
  remove = λ a k. map_remove k a;
}

pub slots-IsSlotMap : IsSlotMap slots
unfolding map_get
slots-IsSlotMap = record {
  get-with_key = λ k. refl;
  insert_fresh = λ a v. fresh_key_lem a (fresh_key a) (omega arith);
  get-insert = λ a v k. refl;
  get-set = λ a j v w k h. map_get-map_insert k j v a;
  get-remove = λ a j k. map_get-map_remove k j a;
}
