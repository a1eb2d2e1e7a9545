-- ===== src/Router/Routes/Splits.antt =====
-- The search for routes, in a map that keeps every quote under its own percent.
use mathlib.Core.List.{reverse, Memᴰ}
use mathlib.Core.Path.{subst, sym}
use native.Mathlib.Nat.{le_refl}
use solana_dex_v.Prelude.{
  ℕ, zero, suc, ◌+◌, ◌≤◌, ◌<◌, ltb, ◌==◌, ◌≡◌, refl, false, ◌||◌, Bool-cases, inl, inr, List, [],
  ◌∷◌, ◌++◌, length, length-append, All-at, Ensures-ok, All, All-append, All-mem, ok, Ensures,
  Ensures->>=, if◌then◌else◌, arith,
}
use solana_dex_v.Router.Trades.{PathQuote}
use solana_dex_v.Router.Routes.{
  SanitizedQuoteMap, InternalRoute, Recurse, percents_of, quotes_of, put_quotes, has_reused_pools,
  exceeds_last, add_quote, visit_quote, visit_quotes, visit_percents, build_routes, empty_route,
  num_quotes, generate_routes,
}
use solana_dex_v.Router.Routes.Parts.{
  IsPartial, IsRoute, quotes_of-put_quotes, num_quotes-put_quotes, add_quote-IsPartial,
}

module _ (P : PathQuote → Type 0) (max_splits : ℕ) where
  -- The quotes of a percent are for that part of the trade.
  abbrev IsMap : SanitizedQuoteMap → Type 0
  IsMap m = (p : ℕ) → All (λ q. (q.split_percent ≡ p) × P q) (quotes_of m p)

  abbrev CanGrow : InternalRoute → Type 0
  CanGrow r = IsPartial P max_splits r × (length r.quotes + 1 ≤ max_splits)

  abbrev AreRoutes : List InternalRoute → Type 0
  AreRoutes = All (IsRoute P max_splits)

  put_quotes-IsMap :
      (m : SanitizedQuoteMap) (p : ℕ) (qs : List PathQuote)
      → IsMap m
      → All (λ q. (q.split_percent ≡ p) × P q) qs
      → IsMap (put_quotes m p qs)
  put_quotes-IsMap m p qs h hq r = elim (Bool-cases (p == r)) [
    | inl e ↦
        let same : p ≡ r = ground arith in rw (quotes_of-put_quotes m p r qs, e) (rw same at hq)
    | inr e ↦ rw (quotes_of-put_quotes m p r qs, e) (h r)
  ]

  -- What a nested call does for the maps with fewer quotes.
  abbrev Recurs : ℕ → Recurse → Type 0
  Recurs n recurse =
      (m : SanitizedQuoteMap) (r : InternalRoute) (routes : List InternalRoute)
      → num_quotes m < n
      → IsMap m
      → CanGrow r
      → AreRoutes routes
      → Ensures AreRoutes (recurse m r routes)

  module _ (recurse : Recurse) (m : SanitizedQuoteMap) (r : InternalRoute)
      (recurs : Recurs (num_quotes m) recurse) (is_map : IsMap m) (can_grow : CanGrow r) where
    visit_quote-AreRoutes :
        (p : ℕ) (q : PathQuote) (rest : List PathQuote) (routes : List InternalRoute)
        → exceeds_last r.quotes p ≡ false
        → All (λ q. (q.split_percent ≡ p) × P q) (q ∷ rest)
        → length (q ∷ rest) ≤ length (quotes_of m p)
        → AreRoutes routes
        → Ensures AreRoutes (visit_quote recurse max_splits m r p q rest routes)
    unfolding visit_quote add_quote
    visit_quote-AreRoutes p q rest routes below hq le h =
        elim (Bool-cases (has_reused_pools q r.quotes)) [
          | inl reused ↦ rw reused h
          | inr fresh ↦
              let part =
                add_quote-IsPartial P max_splits r q p can_grow.0 hq.0.0 hq.0.1 fresh below
                  can_grow.1 in
              elim (Bool-cases (r.split_percent + p == 100)) [
                | inl whole ↦
                    let complete : r.split_percent + p ≡ 100 = ground arith in
                    rw (fresh, whole) (All-append _ routes _ h ((part, complete), tt))
                | inr short ↦ elim (Bool-cases (length r.quotes + 1 == max_splits)) [
                  | inl full ↦ rw (fresh, short, full) h
                  | inr room ↦
                      rw (fresh, short, room)
                        (recurs (put_quotes m p rest) (add_quote r (r.split_percent + p) q) routes
                          (omega (arith, le, num_quotes-put_quotes m p rest))
                          (put_quotes-IsMap m p rest is_map hq.1) (part, one_more room) h)
                ]
              ]
        ]
      where
        one_more :
            (length r.quotes + 1 == max_splits) ≡ false
            → length (r.quotes ++ q ∷ []) + 1 ≤ max_splits
        one_more room = ground (arith, length-append r.quotes (q ∷ []), can_grow.1)

    visit_quotes-AreRoutes :
        (p : ℕ) (qs : List PathQuote) (routes : List InternalRoute)
        → exceeds_last r.quotes p ≡ false
        → All (λ q. (q.split_percent ≡ p) × P q) qs
        → length qs ≤ length (quotes_of m p)
        → AreRoutes routes
        → Ensures AreRoutes (visit_quotes recurse max_splits m r p qs routes)
    unfolding visit_quotes
    visit_quotes-AreRoutes p [] routes below hq le h = h
    visit_quotes-AreRoutes p (q ∷ qs) routes below hq le h =
        Ensures->>= AreRoutes AreRoutes _ _ (visit_quote-AreRoutes p q qs routes below hq le h)
          (λ more held. visit_quotes-AreRoutes p qs more below hq.1 (omega arith) held)

    visit_percents-AreRoutes :
        (ps : List ℕ) (routes : List InternalRoute)
        → AreRoutes routes
        → Ensures AreRoutes (visit_percents recurse max_splits m r ps routes)
    unfolding visit_percents
    visit_percents-AreRoutes [] routes h = h
    visit_percents-AreRoutes (p ∷ ps) routes h =
        Ensures->>= AreRoutes AreRoutes _ _ one_percent (visit_percents-AreRoutes ps)
      where
        one_percent : Ensures AreRoutes (
            if ltb 100 (r.split_percent + p) || exceeds_last r.quotes p
            then ok routes
            else visit_quotes recurse max_splits m r p (quotes_of m p) routes)
        one_percent = elim (Bool-cases (ltb 100 (r.split_percent + p) || exceeds_last r.quotes p)) [
          | inl skipped ↦ rw skipped h
          | inr taken ↦ rw taken (
              visit_quotes-AreRoutes p (quotes_of m p) routes (ground arith) (is_map p) (le_refl _)
                h)
        ]

  build_routes-AreRoutes : (fuel : ℕ) → Recurs fuel (build_routes fuel max_splits)
  unfolding build_routes
  build_routes-AreRoutes zero m r routes lt is_map can_grow h = absurd (omega arith)
  build_routes-AreRoutes (suc fuel) m r routes lt is_map can_grow h =
      visit_percents-AreRoutes (build_routes fuel max_splits) m r
        (λ m' r' rs smaller. build_routes-AreRoutes fuel m' r' rs (omega arith)) is_map can_grow
        (reverse (percents_of m)) routes h

-- Let every quote of the map be kept under its own percent, and let the number of splits be positive.
-- Then the search for routes ends, and in each route found the percents add up to 100 and never
-- increase, no pool is in two of its quotes, the totals are the sums of the amounts of its quotes, the
-- quotes are of the map, and there are at most as many as the splits allowed.
pub generate_routes-IsRoute :
    (m : SanitizedQuoteMap) (max_splits : ℕ)
    → ((p : ℕ) → All (λ q. q.split_percent ≡ p) (quotes_of m p))
    → 0 < max_splits
    → (routes : List InternalRoute) × (generate_routes m max_splits ≡ ok routes)
      × All (IsRoute (λ q. Memᴰ q (quotes_of m q.split_percent)) max_splits) routes
unfolding generate_routes
generate_routes-IsRoute m max_splits kept splits = Ensures-ok (AreRoutes P max_splits) _ (
    build_routes-AreRoutes P max_splits (suc (num_quotes m)) m empty_route [] (omega arith) is_map
      (start, omega arith) tt)
  where
    P : PathQuote → Type 0
    P q = Memᴰ q (quotes_of m q.split_percent)

    is_map : (p : ℕ) → All (λ q. (q.split_percent ≡ p) × P q) (quotes_of m p)
    is_map p = All-mem _ (quotes_of m p) (λ q mem.
        let same = All-at _ (quotes_of m p) (kept p) q mem in
        (same, subst (λ r. Memᴰ q (quotes_of m r)) (sym same) mem))

    start : IsPartial P max_splits empty_route
    start = record {
      from_map = tt;
      follows = tt;
      percents = refl;
      amounts_in = refl;
      amounts_out = refl;
      size = omega arith;
    }
