-- ===== src/Router/QuoteRequests/Later.antt =====
-- The requests of the rounds after the first, for an exact input.
use mathlib.Core.Path.{◌∙◌, sym, ap, subst}
use solana_dex_v.Prelude.{
  get_elem?-concat, ℕ, zero, suc, ◌+◌, ◌<◌, leb, ◌==◌, ◌≡◌, inl, inr, refl, ℤ, Text, true, false,
  Bool-cases, Option, none, some, List, [], ◌∷◌, ◌++◌, length, get_elem?, All, All-append, Result,
  ok, arith,
}
use solana_dex_v.Router.Trades.{Edge, TradePath, TradeHop}
use solana_dex_v.Router.QuoteMap.{
  TradeHopQuoteResult, success, failure, InternalPathQuote, InternalQuoteMap,
}
use solana_dex_v.Router.QuoteRequests.{
  QuoteRequest, PathQuotes, Building, entry_of, quote_at, hop_at, addresses_of, is_complete,
  starts_here, trade_of, push_request, visit_path, visit_paths, with_entry, visit_amounts,
  build_quote_update_requests,
}
use solana_dex_v.Router.QuoteRequests.Lookups.{IsPlace}

-- The hop before gave this amount; the first hop has none before it.
abbrev pub Gave : List (Option TradeHopQuoteResult) → ℕ → ℤ → Type 0
Gave hops zero amount = Unit
Gave hops (suc k) amount =
    (a : TradeHop) × (hop_at hops k ≡ some (success a)) × (a.amount_out ≡ amount)

-- A request for the hop h of a quote of the map, for the amount that the hop before gave.
pub record Asks (h : ℕ) (m : InternalQuoteMap) (u : QuoteRequest) : Type 0 where
  pub of_hop : u.edge_index ≡ h
  pub placed : IsPlace m u.split_percent u.path_index
  pub given :
      (q : InternalPathQuote)
      → quote_at m u.split_percent u.path_index ≡ ok q
      → Gave q.calculated_edge_quotes h u.request.token_amount
  pub as_input : u.request.amount_specified_is_input ≡ true

-- Each request knows its place in the list.
abbrev pub AreNumbered : List QuoteRequest → Type 0
AreNumbered us = (i : ℕ) (u : QuoteRequest) → get_elem? us i ≡ some u → u.quote_index ≡ i

concat-AreNumbered :
    (us : List QuoteRequest) (u : QuoteRequest)
    → u.quote_index ≡ length us
    → AreNumbered us
    → AreNumbered (us ++ u ∷ [])
concat-AreNumbered us u last numbered i v e = elim (get_elem?-concat us u i v e) [
  | inl old ↦ numbered i v old
  | inr (same, new) ↦ sym (ap (λ (w : QuoteRequest). w.quote_index) new) ∙ last ∙ same
]

address_at :
    (edges : List Edge) (i : ℕ)
    → i < length edges
    → (addr : Text) × (get_elem? (addresses_of edges) i ≡ some addr)
address_at [] i lt = absurd (omega arith)
address_at (edge ∷ edges) zero lt = (edge.pool_address, refl)
address_at (edge ∷ edges) (suc i) lt = address_at edges i (omega arith)

later_hop : (k : ℕ) → (suc k == 0) ≡ false
later_hop k = ground arith

module _ (token_in token_out : Text) (k : ℕ) (m : InternalQuoteMap) where
  -- What the loops leave: the map as it was, and requests that fit it.
  abbrev pub Leaves : Result Building → Type 0
  Leaves r = (us : List QuoteRequest) × (r ≡ ok (m, us)) × All (Asks (suc k) m) us × AreNumbered us

  abbrev Step : ℕ → ℤ → ℕ → TradePath → List QuoteRequest → Result Building
  Step percent amount j path us =
      visit_path token_in token_out (suc k) true percent amount j path (m, us)

  visit_path_complete :
      (percent : ℕ) (amount : ℤ) (j : ℕ) (path : TradePath) (us : List QuoteRequest)
      → leb (length path.edges) (suc k) ≡ true
      → Step percent amount j path us ≡ ok (m, us)
  unfolding visit_path is_complete
  visit_path_complete percent amount j path us e = rw e refl

  visit_path-asks :
      (percent : ℕ) (amount : ℤ) (j : ℕ) (path : TradePath) (us : List QuoteRequest)
      (q : InternalPathQuote) (addr : Text)
      → leb (length path.edges) (suc k) ≡ false
      → quote_at m percent j ≡ ok q
      → get_elem? (addresses_of path.edges) (suc k) ≡ some addr
      → Step percent amount j path us
        ≡ ok (
          m,
          push_request token_in token_out
              (suc k)
              true
              percent
              j
              addr
              (trade_of token_in token_out
                (suc k)
                true
                false
                amount
                (hop_at q.calculated_edge_quotes k))
              us,
        )
  unfolding visit_path is_complete starts_here
  visit_path-asks percent amount j path us q addr e read at = rw (e, later_hop k, read, at) refl

  push-Leaves :
      (percent : ℕ) (amount : ℤ) (j : ℕ) (us : List QuoteRequest) (q : InternalPathQuote)
      (addr : Text) (last : Option TradeHopQuoteResult)
      → hop_at q.calculated_edge_quotes k ≡ last
      → quote_at m percent j ≡ ok q
      → All (Asks (suc k) m) us
      → AreNumbered us
      → Leaves (
          ok (
            m,
            push_request token_in token_out
                (suc k)
                true
                percent
                j
                addr
                (trade_of token_in token_out (suc k) true false amount last)
                us,
          ))
  unfolding push_request trade_of
  push-Leaves percent amount j us q addr none e read asks numbered = (us, refl, asks, numbered)
  push-Leaves percent amount j us q addr (some (failure code)) e read asks numbered =
      (us, refl, asks, numbered)
  push-Leaves percent amount j us q addr (some (success a)) e read asks numbered =
      let u : QuoteRequest = record {
        quote_index = length us;
        path_index = j;
        edge_index = suc k;
        split_percent = percent;
        request = record {
          whirlpool = addr;
          trade_token_mint = a.output_mint;
          token_amount = a.amount_out;
          amount_specified_is_input = true;
        };
      } in
      let ask : Asks (suc k) m u = record {
        of_hop = refl;
        placed = (q, read);
        given = λ r found.
            let same : ok q ≡ ok r = sym read ∙ found in
            let is_q : q ≡ r = ground arith in rw (← is_q) (a, e, refl);
        as_input = refl;
      } in
      (
        us ++ u ∷ [],
        refl,
        All-append (Asks (suc k) m) us (u ∷ []) asks (ask, tt),
        concat-AreNumbered us u refl numbered,
      )

  visit_path-Leaves :
      (percent : ℕ) (amount : ℤ) (j : ℕ) (path : TradePath) (us : List QuoteRequest)
      → (suc k < length path.edges → IsPlace m percent j)
      → All (Asks (suc k) m) us
      → AreNumbered us
      → Leaves (Step percent amount j path us)
  visit_path-Leaves percent amount j path us place asks numbered =
      elim (Bool-cases (leb (length path.edges) (suc k))) [
        | inl done ↦ (us, visit_path_complete percent amount j path us done, asks, numbered)
        | inr going ↦
            let longer : suc k < length path.edges = ground arith in
            let (q, read) = place longer in
            let (addr, at) = address_at path.edges (suc k) longer in
            let (vs, same, all, nums) =
              push-Leaves percent amount j us q addr (hop_at q.calculated_edge_quotes k) refl read
                asks numbered in
            (vs, visit_path-asks percent amount j path us q addr going read at ∙ same, all, nums)
      ]

  -- Every path that goes on has its quote.
  abbrev pub ArePlaced : ℕ → ℕ → List TradePath → Type 0
  ArePlaced percent j paths =
      (i : ℕ) (path : TradePath)
      → get_elem? paths i ≡ some path
      → suc k < length path.edges
      → IsPlace m percent (j + i)

  visit_paths-Leaves :
      (percent : ℕ) (amount : ℤ) (j : ℕ) (paths : List TradePath) (us : List QuoteRequest)
      → ArePlaced percent j paths
      → All (Asks (suc k) m) us
      → AreNumbered us
      → Leaves (visit_paths token_in token_out (suc k) true percent amount j paths (m, us))
  unfolding visit_paths
  visit_paths-Leaves percent amount j [] us placed asks numbered = (us, refl, asks, numbered)
  visit_paths-Leaves percent amount j (path ∷ paths) us placed asks numbered =
      let here : suc k < length path.edges → IsPlace m percent j =
        λ longer. subst (IsPlace m percent) (omega arith) (placed 0 path refl longer) in
      let (vs, e, all, nums) = visit_path-Leaves percent amount j path us here asks numbered in
      let (ws, f, all', nums') =
        visit_paths-Leaves percent amount (j + 1) paths vs
          (λ i p at longer. subst (IsPlace m percent) (omega arith) (placed (suc i) p at longer))
          all nums in
      (ws, rw e f, all', nums')

  -- The map has an entry for the percent, and a quote for every path that goes on.
  abbrev pub HasPaths : List TradePath → ℕ × ℤ → Type 0
  HasPaths paths amount =
      ((qs : PathQuotes) × (entry_of m amount.0 ≡ some qs)) × ArePlaced amount.0 0 paths

  with_entry-there :
      (percent n : ℕ) (qs : PathQuotes)
      → entry_of m percent ≡ some qs
      → with_entry token_in token_out (suc k) true percent n m ≡ m
  unfolding with_entry
  with_entry-there percent n qs e = rw (e, with_entry) refl

  next_amount :
      (paths : List TradePath) (percent : ℕ) (amount : ℤ) (amounts : List (ℕ × ℤ))
      (us vs ws : List QuoteRequest)
      → with_entry token_in token_out (suc k) true percent (length paths) m ≡ m
      → visit_paths token_in token_out (suc k) true percent amount 0 paths (m, us) ≡ ok (m, vs)
      → visit_amounts token_in token_out (suc k) true paths amounts (m, vs) ≡ ok (m, ws)
      → visit_amounts token_in token_out (suc k) true paths ((percent, amount) ∷ amounts) (m, us)
        ≡ ok (m, ws)
  unfolding visit_amounts
  next_amount paths percent amount amounts us vs ws there e f = rw (there, e) f

  visit_amounts-Leaves :
      (paths : List TradePath) (amounts : List (ℕ × ℤ)) (us : List QuoteRequest)
      → All (HasPaths paths) amounts
      → All (Asks (suc k) m) us
      → AreNumbered us
      → Leaves (visit_amounts token_in token_out (suc k) true paths amounts (m, us))
  unfolding visit_amounts
  visit_amounts-Leaves paths [] us has asks numbered = (us, refl, asks, numbered)
  visit_amounts-Leaves paths ((percent, amount) ∷ amounts) us has asks numbered =
      let (vs, e, all, nums) = visit_paths-Leaves percent amount 0 paths us has.0.1 asks numbered in
      let (ws, f, all', nums') = visit_amounts-Leaves paths amounts vs has.1 all nums in
      (
        ws,
        next_amount paths percent amount amounts us vs ws
            (with_entry-there percent (length paths) has.0.0.0 has.0.0.1) e f,
        all',
        nums',
      )

  pub build_quote_update_requests-Leaves :
      (paths : List TradePath) (amounts : List (ℕ × ℤ))
      → All (HasPaths paths) amounts
      → Leaves (build_quote_update_requests token_in token_out (suc k) true paths amounts m)
  unfolding build_quote_update_requests
  build_quote_update_requests-Leaves paths amounts has =
      visit_amounts-Leaves paths amounts [] has tt (λ i u e. cc)
