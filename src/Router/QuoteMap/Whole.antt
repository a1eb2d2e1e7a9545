-- ===== src/Router/QuoteMap/Whole.antt =====
-- What the cleaned map holds, and the routes built from it.
use solana_dex_v.Prelude.{
  ℕ, ◌≤◌, ◌<◌, ◌==◌, ◌≡◌, ◌⊎◌, inl, inr, refl, ℤ, leb_ℤ, leb_ℤ_iff, Bool, true, false, Bool-cases,
  Option, none, some, List, [], ◌∷◌, length, sort_by, sort_by-All, sort_by-AllPairs, length-take-le,
  All-take, AllPairs-take, All, AllPairs, All-append, All-imp, All-at, ok, Ensures, Ensures->>=,
  Ensures-ok, arith,
}
use solana_dex_v.Router.Trades.{TradeHop, PathQuote}
use solana_dex_v.Router.Routes.{SanitizedQuoteMap, InternalRoute, quotes_of, generate_routes}
use solana_dex_v.Router.Routes.Parts.{IsRoute}
use solana_dex_v.Router.Routes.Splits.{generate_routes-IsRoute}
use solana_dex_v.Router.QuoteMap.{
  FailureCode, InternalPathQuote, InternalQuoteMap, successes, failures, last_hop, whole_quote,
  first_failure, clean_quote, clean_quotes, clean_map, is_better, prune_map, sanitize_quote_map,
  Cleaned,
}

-- The amounts of a whole quote are those of its first and of its last hop, and it has a hop for each
-- pool of its path.
pub record IsWhole (q : PathQuote) : Type 0 where
  pub first : TradeHop
  pub rest : List TradeHop
  pub hops : q.calculated_edge_quotes ≡ first ∷ rest
  pub starts : q.amount_in ≡ first.amount_in
  pub ends : q.amount_out ≡ (last_hop first rest).amount_out
  pub covers : length q.calculated_edge_quotes ≡ length q.edges_pool_addrs

-- A path that was tried: it has pools, and its hops all succeeded, or one failed.
abbrev pub IsTried : Option InternalPathQuote → Type 0
IsTried none = ⊥
IsTried (some q) =
    (0 < length q.edges_pool_addrs)
    × ((length (successes q.calculated_edge_quotes) ≡ length q.edges_pool_addrs)
        ⊎ (0 < length (failures q.calculated_edge_quotes)))

leb_ℤ_total : (a b : ℤ) → leb_ℤ a b ≡ false → leb_ℤ b a ≡ true
leb_ℤ_total a b h = ground arith

abbrev Kept : ℕ → PathQuote → Type 0
Kept percent q = (q.split_percent ≡ percent) × IsWhole q

whole_quote-Kept :
    (percent : ℕ) (q : InternalPathQuote) (hops : List TradeHop)
    → 0 < length q.edges_pool_addrs
    → length hops ≡ length q.edges_pool_addrs
    → Ensures (Kept percent) (whole_quote q percent hops)
unfolding whole_quote
whole_quote-Kept percent q [] pools same = absurd (omega arith)
whole_quote-Kept percent q (hop ∷ hops) pools same = (
  refl,
  record { first = hop; rest = hops; hops = refl; starts = refl; ends = refl; covers = same },
)

abbrev KeptIn : ℕ → Cleaned → Type 0
KeptIn percent c = All (Kept percent) c.0

first_failure-KeptIn :
    (percent : ℕ) (c : Cleaned) (codes : List FailureCode)
    → 0 < length codes
    → KeptIn percent c
    → Ensures (KeptIn percent) (first_failure c codes)
unfolding first_failure
first_failure-KeptIn percent c [] some_code h = absurd (omega arith)
first_failure-KeptIn percent c (code ∷ codes) some_code h = h

clean_quote-KeptIn :
    (percent : ℕ) (c : Cleaned) (q : Option InternalPathQuote)
    → IsTried q
    → KeptIn percent c
    → Ensures (KeptIn percent) (clean_quote percent c q)
unfolding clean_quote
clean_quote-KeptIn percent c none tried h = absurd tried
clean_quote-KeptIn percent c (some q) (pools, outcome) h =
    elim (Bool-cases (length (successes q.calculated_edge_quotes) == length q.edges_pool_addrs)) [
      | inl whole ↦ rw whole (
          Ensures->>= (Kept percent) (KeptIn percent) _ _
            (whole_quote-Kept percent q (successes q.calculated_edge_quotes) pools (ground arith))
            (λ r kept. All-append (Kept percent) c.0 (r ∷ []) h (kept, tt)))
      | inr part ↦
          rw part
            (first_failure-KeptIn percent c (failures q.calculated_edge_quotes) (ground arith) h)
    ]

clean_quotes-KeptIn :
    (percent : ℕ) (c : Cleaned) (qs : List (Option InternalPathQuote))
    → All IsTried qs
    → KeptIn percent c
    → Ensures (KeptIn percent) (clean_quotes percent c qs)
unfolding clean_quotes
clean_quotes-KeptIn percent c [] tried h = h
clean_quotes-KeptIn percent c (q ∷ qs) tried h =
    Ensures->>= (KeptIn percent) (KeptIn percent) _ _ (clean_quote-KeptIn percent c q tried.0 h)
      (λ d kept. clean_quotes-KeptIn percent d qs tried.1 kept)

abbrev IsKept : SanitizedQuoteMap → Type 0
IsKept = All (λ (entry : ℕ × List PathQuote). All (Kept entry.0) entry.1)

abbrev pub AreTried : InternalQuoteMap → Type 0
AreTried = All (λ (entry : ℕ × List (Option InternalPathQuote)). All IsTried entry.1)

clean_map-IsKept :
    (m : InternalQuoteMap) (errors : List FailureCode)
    → AreTried m
    → Ensures (λ (r : SanitizedQuoteMap × List FailureCode). IsKept r.0) (clean_map m errors)
unfolding clean_map
clean_map-IsKept [] errors tried = tt
clean_map-IsKept ((percent, qs) ∷ m) errors tried =
    Ensures->>= (KeptIn percent) (λ (r : SanitizedQuoteMap × List FailureCode). IsKept r.0) _ _
      (clean_quotes-KeptIn percent ([], errors) qs tried.0 tt)
      (λ c kept.
        Ensures->>= (λ (r : SanitizedQuoteMap × List FailureCode). IsKept r.0)
          (λ (r : SanitizedQuoteMap × List FailureCode). IsKept r.0) _ _
          (clean_map-IsKept m c.1 tried.1) (λ r rest. (kept, rest)))

-- The quotes of a percent: each is for that part of the trade and whole, the better stand first, and
-- there are at most as many as asked for.
abbrev pub IsPruned : ℕ → Bool → SanitizedQuoteMap → Type 0
IsPruned prune_n is_input = All (λ (entry : ℕ × List PathQuote).
    All (λ q. (q.split_percent ≡ entry.0) × IsWhole q) entry.1
    × AllPairs (λ a b. is_better is_input a b ≡ true) entry.1
    × (length entry.1 ≤ prune_n))

is_better_trans :
    (is_input : Bool) (a b c : PathQuote)
    → is_better is_input a b ≡ true
    → is_better is_input b c ≡ true
    → is_better is_input a c ≡ true
unfolding is_better
is_better_trans true a b c h k = (leb_ℤ_iff c.amount_out a.amount_out).1 (
    omega
      (arith, (leb_ℤ_iff c.amount_out b.amount_out).0 k, (leb_ℤ_iff b.amount_out a.amount_out).0 h))
is_better_trans false a b c h k = (leb_ℤ_iff a.amount_in c.amount_in).1 (
    omega (arith, (leb_ℤ_iff a.amount_in b.amount_in).0 h, (leb_ℤ_iff b.amount_in c.amount_in).0 k))

is_better_total :
    (is_input : Bool) (a b : PathQuote)
    → is_better is_input a b ≡ false
    → is_better is_input b a ≡ true
unfolding is_better
is_better_total true a b h = leb_ℤ_total b.amount_out a.amount_out h
is_better_total false a b h = leb_ℤ_total a.amount_in b.amount_in h

prune_map-IsPruned :
    (m : SanitizedQuoteMap) (prune_n : ℕ) (is_input : Bool)
    → IsKept m
    → IsPruned prune_n is_input (prune_map m prune_n is_input)
unfolding prune_map
prune_map-IsPruned [] prune_n is_input h = tt
prune_map-IsPruned ((percent, qs) ∷ m) prune_n is_input h =
    let sorted = sort_by (is_better is_input) qs in
    (
      (
        All-take _ prune_n sorted (sort_by-All (is_better is_input) _ qs h.0),
        AllPairs-take _ prune_n sorted (
            sort_by-AllPairs (is_better is_input) (is_better_trans is_input)
              (is_better_total is_input) qs),
        length-take-le prune_n sorted,
      ),
      prune_map-IsPruned m prune_n is_input h.1,
    )

sanitize_quote_map-IsPruned :
    (m : InternalQuoteMap) (prune_n : ℕ) (is_input : Bool)
    → AreTried m
    → Ensures
        (λ (r : SanitizedQuoteMap × List FailureCode). IsPruned prune_n is_input r.0)
        (sanitize_quote_map m prune_n is_input)
unfolding sanitize_quote_map
sanitize_quote_map-IsPruned m prune_n is_input tried =
    Ensures->>= (λ (r : SanitizedQuoteMap × List FailureCode). IsKept r.0)
      (λ (r : SanitizedQuoteMap × List FailureCode). IsPruned prune_n is_input r.0) _ _
      (clean_map-IsKept m [] tried) (λ r kept. prune_map-IsPruned r.0 prune_n is_input kept)

quotes_of-Kept :
    (m : SanitizedQuoteMap) (prune_n : ℕ) (is_input : Bool)
    → IsPruned prune_n is_input m
    → (p : ℕ) → All (Kept p) (quotes_of m p)
unfolding quotes_of
quotes_of-Kept [] prune_n is_input h p = tt
quotes_of-Kept ((key, qs) ∷ m) prune_n is_input h p = elim (Bool-cases (key == p)) [
  | inl e ↦ let same : key ≡ p = ground arith in rw e (rw same at h.0.0)
  | inr e ↦ rw e (quotes_of-Kept m prune_n is_input h.1 p)
]

IsRoute-imp :
    (P Q : PathQuote → Type 0) (max_splits : ℕ) (r : InternalRoute)
    → ((q : PathQuote) → P q → Q q)
    → IsRoute P max_splits r
    → IsRoute Q max_splits r
IsRoute-imp P Q max_splits r f (part, complete) = (
  record {
    from_map = All-imp P Q r.quotes f part.from_map;
    follows = part.follows;
    percents = part.percents;
    amounts_in = part.amounts_in;
    amounts_out = part.amounts_out;
    size = part.size;
  },
  complete,
)

-- Let every path have pools and have been tried to the end: a quote for each pool, or a failure. Then
-- the quotes are cleaned without an error. Each that is kept is for the part of the trade it is
-- filed under, has a hop for each pool of its path, and goes from the amount of its first hop to the
-- amount of its last; better quotes stand first, and no part has more than the number asked for. For
-- a positive number of splits the search for routes over them ends, and each route found is made of
-- such quotes, adds up to 100 percent, uses no pool in two of its parts, and totals their amounts.
pub sanitize_quote_map-generate_routes :
    (m : InternalQuoteMap) (prune_n max_splits : ℕ) (is_input : Bool)
    → AreTried m
    → 0 < max_splits
    → (r : SanitizedQuoteMap × List FailureCode) × (sanitize_quote_map m prune_n is_input ≡ ok r)
      × IsPruned prune_n is_input r.0
      × (routes : List InternalRoute) × (generate_routes r.0 max_splits ≡ ok routes)
      × All (IsRoute IsWhole max_splits) routes
sanitize_quote_map-generate_routes m prune_n max_splits is_input tried splits =
    let (r, cleaned, pruned) =
      Ensures-ok (λ (r : SanitizedQuoteMap × List FailureCode). IsPruned prune_n is_input r.0) _
        (sanitize_quote_map-IsPruned m prune_n is_input tried) in
    let kept = quotes_of-Kept r.0 prune_n is_input pruned in
    let (routes, found, good) =
      generate_routes-IsRoute r.0 max_splits
        (λ p. All-imp (Kept p) _ (quotes_of r.0 p) (λ q k. k.0) (kept p)) splits in
    (
      r,
      cleaned,
      pruned,
      routes,
      found,
      All-imp _ _ routes
          (λ route.
            IsRoute-imp _ _ max_splits route
              (λ q mem. (All-at (Kept q.split_percent) _ (kept q.split_percent) q mem).1))
          good,
    )
