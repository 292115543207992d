-- ===== src/Storage/Ladder/Find.antt =====
-- The ladders of src/storage.rs by what is found at each price: a sorted ladder is determined by it.
use order_book.Prelude.{
  ◌≡◌, refl, sym, ap, ◌∙◌, [], ◌∷◌, none, some, true, false, if◌then◌else◌, ◌==◌, All, All-map,
  arith, Bool-cases, subst, inl, inr, some_inj, none_not_some, ==→eq,
}
use order_book.Side.{Side, ask, bid}
use order_book.Instrument.{Price}
use order_book.Storage.{BookLevel}
use order_book.Storage.Ladder.{
  Ladder, better, find_level, first_level, put_level, drop_level, Sorted, better_total,
  better_trans,
}

module _ (Key : Type 0) where
  pub find_level-put_level :
      (side : Side) (p : Price) (m : BookLevel Key) (ls : Ladder Key)
      → find_level Key p (put_level Key side m ls)
        ≡ (if p == m.price then some m else find_level Key p ls)
  unfolding find_level put_level
  find_level-put_level side p m [] = ground arith
  find_level-put_level side p m (l ∷ ls) = ground (arith, find_level-put_level side p m ls)

  pub find_level-drop_level :
      (p q : Price) (ls : Ladder Key)
      → find_level Key p (drop_level Key q ls) ≡ (if p == q then none else find_level Key p ls)
  unfolding find_level drop_level
  find_level-drop_level p q [] = ground arith
  find_level-drop_level p q (l ∷ ls) = ground (arith, find_level-drop_level p q ls)

  pub find_level-price :
      (p : Price) (ls : Ladder Key) (l : BookLevel Key) → find_level Key p ls ≡ some l → l.price ≡ p
  unfolding find_level
  find_level-price p [] l h = cc
  find_level-price p (m ∷ ls) l h = ground (arith, find_level-price p ls l)

  better_irrefl : (side : Side) (p q : Price) → better side p q ≡ true → (p == q) ≡ false
  unfolding better
  better_irrefl ask p q h = ground arith
  better_irrefl bid p q h = ground arith

  beq_sym : (p q : Price) → (p == q) ≡ false → (q == p) ≡ false
  beq_sym p q h = ground arith

  -- Nothing is found at a price that is better than every level's.
  pub find_level-worse :
      (side : Side) (p : Price) (ls : Ladder Key)
      → All (λ (m : BookLevel Key). better side p m.price ≡ true) ls
      → find_level Key p ls ≡ none
  unfolding find_level
  find_level-worse side p [] h = refl
  find_level-worse side p (l ∷ ls) h =
      rw (better_irrefl side p l.price h.0) (find_level-worse side p ls h.1)

  pub find_level-head :
      (l : BookLevel Key) (ls : Ladder Key) → find_level Key l.price (l ∷ ls) ≡ some l
  unfolding find_level
  find_level-head l ls = ground arith

  pub find_level-tail :
      (p : Price) (l : BookLevel Key) (ls : Ladder Key)
      → (p == l.price) ≡ false
      → find_level Key p (l ∷ ls) ≡ find_level Key p ls
  unfolding find_level
  find_level-tail p l ls e = rw e refl

  -- Nothing is found at a price that is better than the first level's.
  find_level-better :
      (side : Side) (p : Price) (l : BookLevel Key) (ls : Ladder Key)
      → Sorted Key side (l ∷ ls)
      → better side p l.price ≡ true
      → find_level Key p (l ∷ ls) ≡ none
  find_level-better side p l ls h b =
      find_level-worse side p (l ∷ ls)
        (b, All-map (λ x c. better_trans Key side p l.price x.price b c) ls h.0)

  -- Two sorted ladders that find each other's first level begin with the same one.
  head_ext :
      (side : Side) (l m : BookLevel Key) (ls ms : Ladder Key)
      → Sorted Key side (l ∷ ls)
      → Sorted Key side (m ∷ ms)
      → find_level Key l.price (m ∷ ms) ≡ some l
      → find_level Key m.price (l ∷ ls) ≡ some m
      → l ≡ m
  head_ext side l m ls ms h k e f = elim (Bool-cases (l.price == m.price)) [
    | inl q ↦ some_inj (
        sym e
        ∙ ap (λ p. find_level Key p (m ∷ ms)) (==→eq l.price m.price q)
        ∙ find_level-head m ms)
    | inr q ↦ elim (Bool-cases (better side l.price m.price)) [
      | inl b ↦ absurd (none_not_some (sym (find_level-better side l.price m ms k b) ∙ e))
      | inr b ↦
          let c = better_total Key side l.price m.price q b in
          absurd (none_not_some (sym (find_level-better side m.price l ls h c) ∙ f))
    ]
  ]

  -- What is found behind the first level.
  tail_ext :
      (side : Side) (p : Price) (l : BookLevel Key) (ls ms : Ladder Key)
      → Sorted Key side (l ∷ ls)
      → Sorted Key side (l ∷ ms)
      → find_level Key p (l ∷ ls) ≡ find_level Key p (l ∷ ms)
      → find_level Key p ls ≡ find_level Key p ms
  tail_ext side p l ls ms h k e = elim (Bool-cases (p == l.price)) [
    | inl q ↦
        let r = sym (==→eq p l.price q) in
        subst (λ x. find_level Key x ls ≡ find_level Key x ms) r
          (find_level-worse side l.price ls h.0 ∙ sym (find_level-worse side l.price ms k.0))
    | inr q ↦ sym (find_level-tail p l ls q) ∙ e ∙ find_level-tail p l ms q
  ]

  -- A ladder is determined by what is found in it.
  pub Ladder_ext :
      (side : Side) (ls ms : Ladder Key)
      → Sorted Key side ls
      → Sorted Key side ms
      → ((p : Price) → find_level Key p ls ≡ find_level Key p ms)
      → ls ≡ ms
  unfolding find_level
  Ladder_ext side [] [] h k e = refl
  Ladder_ext side [] (m ∷ ms) h k e = absurd (none_not_some (e m.price ∙ find_level-head m ms))
  Ladder_ext side (l ∷ ls) [] h k e =
      absurd (none_not_some (sym (e l.price) ∙ find_level-head l ls))
  Ladder_ext side (l ∷ ls) (m ∷ ms) h k e =
      let same : l ≡ m =
        head_ext side l m ls ms h k (sym (e l.price) ∙ find_level-head l ls)
          (e m.price ∙ find_level-head m ms) in
      let k' : Sorted Key side (l ∷ ms) = subst (λ x. Sorted Key side (x ∷ ms)) (sym same) k in
      ap (λ x. l ∷ x)
        (Ladder_ext side ls ms h.1 k.1 (λ p.
          tail_ext side p l ls ms h k'
            (subst (λ x. find_level Key p (l ∷ ls) ≡ find_level Key p (x ∷ ms)) (sym same) (e p))))
      ∙ ap (λ x. x ∷ ms) same

  -- A price where a level is found and that no level is better than is the best level's.
  pub first_level_lem :
      (side : Side) (l : BookLevel Key) (ls : Ladder Key)
      → Sorted Key side ls
      → find_level Key l.price ls ≡ some l
      → ((m : BookLevel Key)
          → find_level Key m.price ls ≡ some m
          → better side m.price l.price ≡ false)
      → first_level Key ls ≡ some l
  unfolding find_level
  first_level_lem side l [] h e a = absurd (none_not_some e)
  first_level_lem side l (m ∷ ls) h e a = elim (Bool-cases (l.price == m.price)) [
    | inl q ↦
        sym (find_level-head m ls)
        ∙ ap (λ p. find_level Key p (m ∷ ls)) (sym (==→eq l.price m.price q))
        ∙ e
    | inr q ↦ absurd (
        none_not_some (
          sym (
            find_level-better side l.price m ls h (
              better_total Key side m.price l.price (beq_sym l.price m.price q)
                (a m (find_level-head m ls))))
          ∙ e))
  ]

  pub first_level-none :
      (ls : Ladder Key) → ((p : Price) → find_level Key p ls ≡ none) → first_level Key ls ≡ none
  first_level-none [] h = refl
  first_level-none (l ∷ ls) h = absurd (none_not_some (sym (h l.price) ∙ find_level-head l ls))

  pub drop_level-none :
      (p : Price) (ls : Ladder Key) → find_level Key p ls ≡ none → drop_level Key p ls ≡ ls
  unfolding find_level drop_level
  drop_level-none p [] h = refl
  drop_level-none p (l ∷ ls) h = ground (arith, drop_level-none p ls)
