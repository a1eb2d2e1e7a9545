-- ===== src/Router/QuoteRounds/Chained.antt =====
-- The quotes of a round are put where they belong: each hop of a path starts with what the last gave.
use native.Mathlib.Decide.{dec_le}
use mathlib.Core.Path.{◌∙◌, sym, ap}
use solana_dex_v.Prelude.{
  ℕ, zero, suc, ◌≤◌, ◌≡◌, inl, inr, refl, ℤ, Text, true, Option, none, some, List, [], ◌∷◌,
  get_elem?, set, All, All-imp, Result, ok, err, arith,
}
use solana_dex_v.Sdk.{MathUtil, SplToken}
use solana_dex_v.Price.PriceMath.{BnBits}
use solana_dex_v.Swap.SwapQuote.{SwapQuoteParam, SwapQuote}
use solana_dex_v.Swap.SlippageQuote.{SwapAmounts, swap_quote_with_params}
use solana_dex_v.Router.Trades.{TradeHop}
use solana_dex_v.Router.BatchSwapQuote.{SwapQuoteRequest}
use solana_dex_v.Router.QuoteMap.{TradeHopQuoteResult, success, InternalPathQuote, InternalQuoteMap}
use solana_dex_v.Router.QuoteRequests.{QuoteRequest, quote_at, put_quote, hop_at}
use solana_dex_v.Router.QuoteRequests.Later.{Gave}
use solana_dex_v.Router.QuoteRequests.Lookups.{
  hop_at-set, quote_at-put_quote, IsPlace, put_quote-IsPlace,
}
use solana_dex_v.Router.QuoteRounds.{
  hop_of, hop_result, with_hop, no_slippage, quote_hop, populate_quote_map,
}

abbrev pub Hops : Type 0
Hops = List (Option TradeHopQuoteResult)

-- A hop that succeeded comes after one that succeeded, and starts with the amount that it gave.
abbrev pub Linked : Hops → Type 0
Linked hops =
    (i : ℕ) (b : TradeHop)
    → hop_at hops (suc i) ≡ some (success b)
    → (a : TradeHop) × (hop_at hops i ≡ some (success a)) × (a.amount_out ≡ b.amount_in)

-- From this hop on, nothing is quoted yet.
abbrev pub IsOpenFrom : ℕ → Hops → Type 0
IsOpenFrom h hops = (i : ℕ) → h ≤ i → hop_at hops i ≡ none

set-kept :
    (hops : Hops) (h i : ℕ) (v : Option TradeHopQuoteResult)
    → (h ≡ i → ⊥)
    → hop_at (set hops h v) i ≡ hop_at hops i
set-kept hops h i v apart = elim (hop_at-set hops h i v) [
  | inl (same, e) ↦ absurd (apart same)
  | inr e ↦ e
]

set-IsOpenFrom :
    (hops : Hops) (h : ℕ) (v : Option TradeHopQuoteResult)
    → IsOpenFrom (suc h) hops
    → IsOpenFrom (suc h) (set hops h v)
set-IsOpenFrom hops h v later i le =
    set-kept hops h i v (λ same. omega (arith, same, le)) ∙ later i le

set-Gave :
    (hops : Hops) (h : ℕ) (v : Option TradeHopQuoteResult) (amount : ℤ)
    → Gave hops h amount
    → Gave (set hops h v) h amount
set-Gave hops zero v amount gave = tt
set-Gave hops (suc k) v amount (a, e, same) =
    (a, set-kept hops (suc k) k v (λ eq. omega (arith, eq)) ∙ e, same)

set-Linked :
    (hops : Hops) (h : ℕ) (result : TradeHopQuoteResult)
    → Linked hops
    → IsOpenFrom (suc h) hops
    → ((b : TradeHop) → result ≡ success b → Gave hops h b.amount_in)
    → Linked (set hops h (some result))
set-Linked hops h result linked later gave i b e = elim (hop_at-set hops h (suc i) (some result)) [
  | inl (same, is_result) ↦
      let is_b : result ≡ success b = ground (arith, sym is_result ∙ e) in
      let (a, f, out) : Gave hops (suc i) b.amount_in = rw same at (gave b is_b) in
      (a, set-kept hops h i (some result) (λ eq. omega (arith, eq, same)) ∙ f, out)
  | inr old ↦ elim (dec_le (suc h) (suc i)) [
    | yes le ↦ cc (e, old, later (suc i) le)
    | no lt ↦
        let (a, f, out) = linked i b (sym old ∙ e) in
        (a, set-kept hops h i (some result) (λ eq. lt (omega (arith, eq))) ∙ f, out)
  ]
]

-- The quotes of a map, of which the hops from h on are not quoted yet.
abbrev pub AreLinked : ℕ → InternalQuoteMap → Type 0
AreLinked h m =
    (r j : ℕ) (q : InternalPathQuote)
    → quote_at m r j ≡ ok q
    → Linked q.calculated_edge_quotes × IsOpenFrom h q.calculated_edge_quotes

-- A request for the hop h of a quote of the map, whose amount the hop before gave; its parameters
-- are for this amount, as input.
pub record Fits {Mint : Type 0} (params : List (SwapQuoteParam Text Mint)) (h : ℕ)
    (m : InternalQuoteMap) (u : QuoteRequest) : Type 0 where
  pub of_hop : u.edge_index ≡ h
  pub placed : IsPlace m u.split_percent u.path_index
  pub given :
      (q : InternalPathQuote)
      → quote_at m u.split_percent u.path_index ≡ ok q
      → Gave q.calculated_edge_quotes h u.request.token_amount
  pub matched :
      (p : SwapQuoteParam Text Mint)
      → get_elem? params u.quote_index ≡ some p
      → (p.amount_specified_is_input ≡ true) × (p.token_amount ≡ u.request.token_amount)

with_hop-kept :
    (m next : InternalQuoteMap) (u : QuoteRequest) (path q : InternalPathQuote)
    (result : TradeHopQuoteResult) (r j h : ℕ) (amount : ℤ)
    → quote_at m u.split_percent u.path_index ≡ ok path
    → put_quote m u.split_percent u.path_index (with_hop path h result) ≡ ok next
    → quote_at next r j ≡ ok q
    → ((q : InternalPathQuote) → quote_at m r j ≡ ok q → Gave q.calculated_edge_quotes h amount)
    → Gave q.calculated_edge_quotes h amount
unfolding with_hop
with_hop-kept m next u path q result r j h amount read written found gave =
    elim (quote_at-put_quote m next u.split_percent u.path_index r j (with_hop path h result) q
      written found) [
        | inl (at_r, at_j, same) ↦
            let there : quote_at m r j ≡ ok path = rw (← at_r, ← at_j) read in
            rw (← same)
              (set-Gave path.calculated_edge_quotes h (some result) amount (gave path there))
        | inr old ↦ gave q old
      ]

with_hop-AreLinked :
    (m next : InternalQuoteMap) (u : QuoteRequest) (path : InternalPathQuote)
    (result : TradeHopQuoteResult) (h : ℕ)
    → quote_at m u.split_percent u.path_index ≡ ok path
    → put_quote m u.split_percent u.path_index (with_hop path h result) ≡ ok next
    → AreLinked (suc h) m
    → ((b : TradeHop) → result ≡ success b → Gave path.calculated_edge_quotes h b.amount_in)
    → AreLinked (suc h) next
unfolding with_hop
with_hop-AreLinked m next u path result h read written linked gave r j q found =
    elim (quote_at-put_quote m next u.split_percent u.path_index r j (with_hop path h result) q
      written found) [
        | inl (at_r, at_j, same) ↦
            let (old, later) = linked u.split_percent u.path_index path read in
            rw (← same) (
              set-Linked path.calculated_edge_quotes h result old later gave,
              set-IsOpenFrom path.calculated_edge_quotes h (some result) later,
            )
        | inr old ↦ linked r j q old
      ]

module _ {Mint Config : Type 0} (math : MathUtil) (bits : BnBits) (spl : SplToken Mint Config)
    (fuel : ℕ) where
  hop_result-amount :
      (p : SwapQuoteParam Text Mint) (request : SwapQuoteRequest Text)
      (outcome : Result (SwapQuote Text × SwapAmounts)) (b : TradeHop)
      → p.amount_specified_is_input ≡ true
      → hop_result p request outcome ≡ success b
      → b.amount_in ≡ p.token_amount
  unfolding hop_result hop_of
  hop_result-amount p request (err code) b is_input e = cc
  hop_result-amount p request (ok (q, a)) b is_input e =
      let same : hop_of p request q ≡ b = ground arith in
      sym (ap (λ (t : TradeHop). t.amount_in) same) ∙ rw is_input refl

  quote_hop-amount :
      (found : Option (SwapQuoteParam Text Mint)) (request : SwapQuoteRequest Text) (b : TradeHop)
      → ((p : SwapQuoteParam Text Mint)
          → found ≡ some p
          → (p.amount_specified_is_input ≡ true) × (p.token_amount ≡ request.token_amount))
      → quote_hop math bits spl fuel found request ≡ success b
      → b.amount_in ≡ request.token_amount
  unfolding quote_hop
  quote_hop-amount none request b matched e = cc
  quote_hop-amount (some p) request b matched e =
      let (is_input, same) = matched p refl in
      hop_result-amount p request (swap_quote_with_params math bits spl fuel p no_slippage) b
        is_input e
      ∙ same

  one_update :
      (params : List (SwapQuoteParam Text Mint)) (h : ℕ) (u : QuoteRequest) (us : List QuoteRequest)
      (m next last : InternalQuoteMap) (path : InternalPathQuote)
      → quote_at m u.split_percent u.path_index ≡ ok path
      → u.edge_index ≡ h
      → put_quote m u.split_percent u.path_index (
          with_hop path h (quote_hop math bits spl fuel (get_elem? params u.quote_index) u.request))
        ≡ ok next
      → populate_quote_map math bits spl fuel us params next ≡ ok last
      → populate_quote_map math bits spl fuel (u ∷ us) params m ≡ ok last
  unfolding populate_quote_map
  one_update params h u us m next last path read of_hop written rest =
      rw (read, of_hop, written) rest

  -- The updates of a round, made one after another.
  pub populate_quote_map-AreLinked :
      (params : List (SwapQuoteParam Text Mint)) (h : ℕ) (us : List QuoteRequest)
      (m : InternalQuoteMap)
      → AreLinked (suc h) m
      → All (Fits params h m) us
      → (next : InternalQuoteMap) × (populate_quote_map math bits spl fuel us params m ≡ ok next)
        × AreLinked (suc h) next
  unfolding populate_quote_map
  populate_quote_map-AreLinked params h [] m linked fits = (m, refl, linked)
  populate_quote_map-AreLinked params h (u ∷ us) m linked fits =
      let (path, read) = fits.0.placed in
      let result = quote_hop math bits spl fuel (get_elem? params u.quote_index) u.request in
      let (next, written, places) =
        put_quote-IsPlace m u.split_percent u.path_index (with_hop path h result) (path, read) in
      let gave : (b : TradeHop)
          → result ≡ success b
          → Gave path.calculated_edge_quotes h b.amount_in =
        λ b e. rw (quote_hop-amount _ u.request b fits.0.matched e) (fits.0.given path read) in
      let linked_next = with_hop-AreLinked m next u path result h read written linked gave in
      let (last, rest, end) = populate_quote_map-AreLinked params h us next linked_next (
        All-imp _ _ us
          (λ v f. record {
            of_hop = f.of_hop;
            placed = places v.split_percent v.path_index f.placed;
            given = λ q found.
                with_hop-kept m next u path q result v.split_percent v.path_index h
                  v.request.token_amount read written found f.given;
            matched = f.matched;
          })
          fits.1) in
      (last, one_update params h u us m next last path read fits.0.of_hop written rest, end)
