-- ===== src/Matching/Priority/Fence.antt =====
-- Trades in the order of a sweep of src/matching.rs, and the levels that are left behind them.
use order_book.Prelude.{
  ◌≡◌, refl, sym, ap, ◌∙◌, subst, List, [], ◌∷◌, ◌++◌, some, true, false, arith, All, All-map,
  All-append, text_eq, none_not_some, some_inj,
}
use order_book.Side.{Side, ask, bid}
use order_book.Instrument.{Price}
use order_book.Storage.{BookLevel}
use order_book.Storage.Ladder.{
  Ladder, Sorted, better, first_level, put_level, drop_level, put_level-All, drop_level-All,
}
use order_book.Matching.{Trade}

-- No trade is at a better price than one before it.
abbrev pub BestFirst : Side → List Trade → Type 0
BestFirst side [] = Unit {0}
BestFirst side (t ∷ ts) =
    All (λ (u : Trade). better side u.price t.price ≡ false) ts × BestFirst side ts

-- A price is no better than the trades'.
abbrev pub Behind : Side → List Trade → Price → Type 0
Behind side ts p = All (λ (t : Trade). better side p t.price ≡ false) ts

better_irrefl : (side : Side) (p q : Price) → p ≡ q → better side p q ≡ false
unfolding better
better_irrefl ask p q e = ground arith
better_irrefl bid p q e = ground arith

better_asym : (side : Side) (p q : Price) → better side p q ≡ true → better side q p ≡ false
unfolding better
better_asym ask p q h = ground arith
better_asym bid p q h = ground arith

-- Trades at one price.
abbrev pub At : Price → List Trade → Type 0
At p ts = All (λ (t : Trade). t.price ≡ p) ts

pub At-Behind :
    (side : Side) (p q : Price) (ts : List Trade)
    → better side q p ≡ false
    → At p ts
    → Behind side ts q
At-Behind side p q ts h a = All-map (λ t e. ap (better side q) e ∙ h) ts a

At-BestFirst : (side : Side) (p : Price) (ts : List Trade) → At p ts → BestFirst side ts
At-BestFirst side p [] h = tt
At-BestFirst side p (t ∷ ts) h = (
  All-map (λ (u : Trade) e. better_irrefl side u.price t.price (e ∙ sym h.0)) ts h.1,
  At-BestFirst side p ts h.1,
)

pub BestFirst-append :
    (side : Side) (p : Price) (ts us : List Trade)
    → BestFirst side ts
    → Behind side ts p
    → At p us
    → BestFirst side (ts ++ us)
BestFirst-append side p [] us h b a = At-BestFirst side p us a
BestFirst-append side p (t ∷ ts) us h b a = (
  All-append _ ts us h.0 (All-map (λ (u : Trade) e. ap (λ q. better side q t.price) e ∙ b.0) us a),
  BestFirst-append side p ts us h.1 b.1 a,
)

module _ (Key : Type 0) where
  abbrev pub Fenced : Side → List Trade → Ladder Key → Type 0
  Fenced side ts ls = BestFirst side ts × All (λ (l : BookLevel Key). Behind side ts l.price) ls

  Behind-rest :
      (side : Side) (p : Price) (ls : Ladder Key) (ts us : List Trade)
      → All (λ (x : BookLevel Key). better side p x.price ≡ true) ls
      → All (λ (x : BookLevel Key). Behind side ts x.price) ls
      → At p us
      → All (λ (x : BookLevel Key). Behind side (ts ++ us) x.price) ls
  Behind-rest side p [] ts us s h a = tt
  Behind-rest side p (x ∷ ls) ts us s h a = (
    All-append _ ts us h.0 (At-Behind side p x.price us (better_asym side p x.price s.0) a),
    Behind-rest side p ls ts us s.1 h.1 a,
  )

  -- Once the best level is drained, what is left stands behind the trades with it.
  pub Fenced-drained :
      (side : Side) (ls : Ladder Key) (l m : BookLevel Key) (ts us : List Trade)
      → first_level Key ls ≡ some l
      → m.price ≡ l.price
      → Sorted Key side ls
      → Fenced side ts ls
      → At l.price us
      → Fenced side (ts ++ us) (drop_level Key l.price (put_level Key side m ls))
  Fenced-drained side [] l m ts us f e s h a = absurd (none_not_some f)
  Fenced-drained side (k ∷ ls) l m ts us f e s h a =
      let q : k.price ≡ l.price = ap (λ (x : BookLevel Key). x.price) (some_inj f) in
      let top : Behind side ts l.price = subst (Behind side ts) q h.1.0 in
      let here : Behind side (ts ++ us) l.price =
        All-append _ ts us top
          (At-Behind side l.price l.price us (better_irrefl side l.price l.price refl) a) in
      let rest : All (λ (x : BookLevel Key). Behind side (ts ++ us) x.price) ls =
        Behind-rest side l.price ls ts us
          (subst (λ y. All (λ (x : BookLevel Key). better side y x.price ≡ true) ls) q s.0) h.1.1
          a in
      (
        BestFirst-append side l.price ts us h.0 top a,
        drop_level-All Key _ l.price (put_level Key side m (k ∷ ls)) (
            put_level-All Key _ side m (k ∷ ls) (subst (Behind side (ts ++ us)) (sym e) here)
              (subst (Behind side (ts ++ us)) (sym q) here, rest)),
      )

  pub first-Behind :
      (side : Side) (ls : Ladder Key) (l : BookLevel Key) (ts : List Trade)
      → first_level Key ls ≡ some l
      → Fenced side ts ls
      → Behind side ts l.price
  first-Behind side [] l ts f h = absurd (none_not_some f)
  first-Behind side (k ∷ ls) l ts f h =
      subst (λ (x : BookLevel Key). Behind side ts x.price) (some_inj f) h.1.0
