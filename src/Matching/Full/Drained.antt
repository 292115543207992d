-- ===== src/Matching/Full/Drained.antt =====
-- The ladder that the sweep of src/matching.rs has before it, once its best level is drained.
use order_book.Prelude.{
  ◌≡◌, refl, sym, ap, ◌∙◌, subst, List, [], ◌∷◌, none, some, true, false, arith, All, ◌==◌,
  none_not_some, some_inj, if◌then◌else◌, ◌+◌,
}
use order_book.Side.{Side, ask, bid}
use order_book.Instrument.{Price}
use order_book.Types.{Order}
use order_book.OrderQueue.{SlotMap, LevelQueue}
use order_book.Storage.{BookLevel, OrderBookStore}
use order_book.Storage.Ladder.{Ladder, IsStore, Sorted, better, first_level, put_level, drop_level}
use order_book.Storage.Ladder.Place.{is_place}
use order_book.Matching.{within_limit}
use order_book.Matching.Sweep.{Sweep, store_level}
use order_book.Matching.Fillable.{offered, others_left}
use order_book.Matching.Halts.{first-found, store_level_drained}

apart : (side : Side) (p q : Price) → better side p q ≡ true → (p == q) ≡ false
unfolding better
apart ask p q h = ground arith
apart bid p q h = ground arith

pub behind_away :
    (side : Side) (p q : Price) → better side p q ≡ true → is_place side p side q ≡ false
behind_away side p q h = ground (arith, apart side p q h)

-- What is offered depends on the taker's side and client, and on the orders at the levels.
pub offered_same :
    {Key : Type 0} (at at' : Price → List Order) (taker taker' : Order) (bound : Price)
    (ls : Ladder Key)
    → taker.side ≡ taker'.side
    → taker.client_id ≡ taker'.client_id
    → All (λ (m : BookLevel Key). at m.price ≡ at' m.price) ls
    → offered at taker bound ls ≡ offered at' taker' bound ls
offered_same at at' taker taker' bound [] e f h = refl
offered_same at at' taker taker' bound (l ∷ ls) e f h =
    ap
      (λ d.
        if within_limit d l.price bound
        then others_left taker.client_id (at l.price) + offered at taker bound ls
        else offered at taker bound ls)
      e
    ∙ ap
        (λ n.
          if within_limit taker'.side l.price bound
          then others_left taker.client_id (at l.price) + n
          else n)
        (offered_same at at' taker taker' bound ls e f h.1)
    ∙ ap
        (λ n.
          if within_limit taker'.side l.price bound
          then n + offered at' taker' bound ls
          else offered at' taker' bound ls)
        (ap (λ i. others_left i (at l.price)) f ∙ ap (others_left taker'.client_id) h.0)

pub all_levels :
    {Key : Type 0} (P : BookLevel Key → Type 0) (ls : Ladder Key)
    → ((m : BookLevel Key) → P m)
    → All P ls
all_levels P [] h = tt
all_levels P (l ∷ ls) h = (h l, all_levels P ls h)

pub offered-none :
    {Key : Type 0} (at : Price → List Order) (taker : Order) (bound : Price) (ls : Ladder Key)
    → first_level Key ls ≡ none
    → offered at taker bound ls ≡ 0
offered-none at taker bound [] h = refl
offered-none at taker bound (l ∷ ls) h = absurd (none_not_some (sym h))

pub All_both :
    {A : Type 0} (P Q R : A → Type 0) (xs : List A)
    → ((x : A) → P x → Q x → R x)
    → All P xs
    → All Q xs
    → All R xs
All_both P Q R [] f h k = tt
All_both P Q R (x ∷ xs) f h k = (f x h.0 k.0, All_both P Q R xs f h.1 k.1)

module _ (Key : Type 0) where
  drop_absent :
      (side : Side) (p : Price) (ls : Ladder Key)
      → All (λ (m : BookLevel Key). better side p m.price ≡ true) ls
      → drop_level Key p ls ≡ ls
  unfolding drop_level
  drop_absent side p [] h = refl
  drop_absent side p (l ∷ ls) h =
      rw (apart side p l.price h.0) (ap (λ ms. l ∷ ms) (drop_absent side p ls h.1))

  drop_written :
      (side : Side) (l m : BookLevel Key) (ls : Ladder Key)
      → Sorted Key side (l ∷ ls)
      → m.price ≡ l.price
      → drop_level Key l.price (put_level Key side m (l ∷ ls)) ≡ ls
  unfolding drop_level put_level
  drop_written side l m ls h e =
      let here : (m.price == l.price) ≡ true = ground (arith, e) in
      let there : (l.price == m.price) ≡ true = ground (arith, e) in
      rw (here, there) (drop_absent side l.price ls h.0)

  pub first_level_rest :
      (ls : Ladder Key) (l : BookLevel Key)
      → first_level Key ls ≡ some l
      → (rest : Ladder Key) × (ls ≡ l ∷ rest)
  first_level_rest [] l e = absurd (none_not_some e)
  first_level_rest (k ∷ ls) l e = (ls, ap (λ x. x ∷ ls) (some_inj e))

module _ (slots : SlotMap) (stores : OrderBookStore slots.Key) (Valid : stores.Store → Type 0)
    (laws : IsStore slots.Key stores Valid) where
  open slots use {Key}

  -- A drained best level leaves the levels behind it.
  pub store_level_rest :
      (t : Sweep slots stores) (side : Side) (level : BookLevel Key) (queue : LevelQueue Key)
      (rest : Ladder Key)
      → Valid t.store
      → stores.levels t.store side ≡ level ∷ rest
      → (queue.len == 0) ≡ true
      → stores.levels (store_level slots stores t side level queue).store side ≡ rest
  store_level_rest t side level queue rest valid ladder z =
      let m : BookLevel Key = record level { queue = queue } in
      let top : first_level Key (stores.levels t.store side) ≡ some level =
        ap (first_level Key) ladder in
      let (vp, put, _) = laws.put_lem t.store side m level valid (
        laws.level_lem t.store side level.price valid
        ∙ first-found slots stores Valid laws _ level top) in
      let (_, removed, _, _) =
        laws.remove_level_lem (stores.put t.store side level.price m) side level.price vp in
      ap (λ (x : Sweep slots stores). stores.levels x.store side)
        (store_level_drained slots stores t side level queue z)
      ∙ removed
      ∙ ap (drop_level Key level.price) (put ∙ ap (put_level Key side m) ladder)
      ∙ drop_written Key side level m rest
          (subst (Sorted Key side) ladder (laws.sorted t.store side valid)) refl
