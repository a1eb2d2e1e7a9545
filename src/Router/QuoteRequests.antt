-- ===== src/Router/QuoteRequests.antt =====
-- buildQuoteUpdateRequests (sdk/src/router/quote-map.ts): what is quoted for one hop of every path.
pub mod Lookups
pub mod Later
use solana_dex_v.Prelude.{
  ℕ, zero, suc, ◌+◌, max, ltb, leb, ◌==◌, ℤ, pos, Text, Bool, Option, none, some, List, [], ◌∷◌,
  ◌++◌, map, length, get_elem?, set, replicate, Result, ok, err, ErrorCode, type_error, ◌>>=◌,
  if◌then◌else◌,
}
use solana_dex_v.Sdk.{MathUtil, Percentage, SplToken}
use solana_dex_v.Types.{PoolData}
use solana_dex_v.Price.PriceMath.{BnBits}
use solana_dex_v.Ticks.TickArraySequence.{or_type_error}
use solana_dex_v.Swap.SwapQuote.{SwapQuoteParam, SwapQuote}
use solana_dex_v.Swap.SlippageQuote.{SwapAmounts, swap_quote_with_params}
use solana_dex_v.Router.Trades.{Edge, TradePath, TradeHop, Trade, RoutingOptions}
use solana_dex_v.Router.BatchSwapQuote.{SwapQuoteRequest}
use solana_dex_v.Router.QuoteMap.{
  TradeHopQuoteResult, success, failure, InternalPathQuote, InternalQuoteMap,
  get_split_percentage_amts, sanitize_quote_map,
}
use solana_dex_v.Router.Routes.{SanitizedQuoteMap}

pub record QuoteRequest : Type 0 where
  pub quote_index : ℕ
  pub path_index : ℕ
  pub edge_index : ℕ
  pub split_percent : ℕ
  pub request : SwapQuoteRequest Text

abbrev pub PathQuotes : Type 0
PathQuotes = List (Option InternalPathQuote)

-- `quoteMap[percent]`.
unfoldable pub entry_of : InternalQuoteMap → ℕ → Option PathQuotes
entry_of [] percent = none
entry_of ((key, quotes) ∷ quote_map) percent =
    if key == percent then some quotes else entry_of quote_map percent

-- `quoteMap[percent] = quotes`: the keys stay in ascending order.
unfoldable pub put_entry : InternalQuoteMap → ℕ → PathQuotes → InternalQuoteMap
put_entry [] percent quotes = (percent, quotes) ∷ []
put_entry ((key, old) ∷ quote_map) percent quotes =
    if key == percent
    then (key, quotes) ∷ quote_map
    else if ltb percent key
    then (percent, quotes) ∷ (key, old) ∷ quote_map
    else (key, old) ∷ put_entry quote_map percent quotes

-- `quoteMap[percent][index]`, of which a property is read next.
unfoldable pub quote_at : InternalQuoteMap → ℕ → ℕ → Result InternalPathQuote
quote_at quote_map percent index = do
  quotes ← or_type_error (entry_of quote_map percent)
  found ← or_type_error (get_elem? quotes index)
  or_type_error found

-- `quoteMap[percent][index] = quote`.
unfoldable pub put_quote : InternalQuoteMap → ℕ → ℕ → InternalPathQuote → Result InternalQuoteMap
put_quote quote_map percent index quote = do
  quotes ← or_type_error (entry_of quote_map percent)
  ok (put_entry quote_map percent (set quotes index (some quote)))

abbrev pub addresses_of : List Edge → List Text
addresses_of [] = []
addresses_of (edge ∷ edges) = edge.pool_address ∷ addresses_of edges

unfoldable pub new_quote : ℕ → TradePath → InternalPathQuote
new_quote percent path = record {
  path = path;
  edges_pool_addrs = addresses_of path.edges;
  split_percent = percent;
  calculated_edge_quotes = replicate (length path.edges) none;
}

-- What a quote has at an index; outside of it, undefined.
abbrev pub hop_at : List (Option TradeHopQuoteResult) → ℕ → Option TradeHopQuoteResult
hop_at [] i = none
hop_at (hop ∷ hops) zero = hop
hop_at (hop ∷ hops) (suc i) = hop_at hops i

abbrev pub hop_before : List (Option TradeHopQuoteResult) → ℕ → Option TradeHopQuoteResult
hop_before hops zero = none
hop_before hops (suc i) = hop_at hops i

-- The map so far, and the requests.
abbrev pub Building : Type 0
Building = InternalQuoteMap × List QuoteRequest

module _ (token_in token_out : Text) (hop : ℕ) (amount_specified_is_input : Bool) where
  unfoldable pub is_complete : TradePath → Bool
  is_complete path =
      if amount_specified_is_input
      then leb (length path.edges) hop
      else ltb (length path.edges) (hop + 1)

  unfoldable pub starts_here : TradePath → Bool
  starts_here path = if amount_specified_is_input then hop == 0 else hop + 1 == length path.edges

  -- The token and its amount that a hop is quoted for; none where the last hop has no quote.
  unfoldable pub trade_of : Bool → ℤ → Option TradeHopQuoteResult → Option (Text × ℤ)
  trade_of starting trade_amount last_hop =
      if starting
      then some (if amount_specified_is_input then token_in else token_out, trade_amount)
      else elim last_hop [
        | none ↦ none
        | some (failure code) ↦ none
        | some (success last) ↦ some (
          if amount_specified_is_input then last.output_mint else last.input_mint,
          if amount_specified_is_input then last.amount_out else last.amount_in,
        )
      ]

  unfoldable pub push_request :
      ℕ → ℕ → Text → Option (Text × ℤ) → List QuoteRequest → List QuoteRequest
  push_request percent path_index pool_addr none quote_updates = quote_updates
  push_request percent path_index pool_addr (some trade) quote_updates =
      quote_updates
      ++ record {
        quote_index = length quote_updates;
        path_index = path_index;
        edge_index = hop;
        split_percent = percent;
        request = record {
          whirlpool = pool_addr;
          trade_token_mint = trade.0;
          token_amount = trade.1;
          amount_specified_is_input = amount_specified_is_input;
        };
      }
        ∷ []

  -- The body of the loop over the paths.
  unfoldable pub visit_path : ℕ → ℤ → ℕ → TradePath → Building → Result Building
  visit_path percent trade_amount path_index path (quote_map, quote_updates) =
      if is_complete path then ok (quote_map, quote_updates) else do
        started ←
            if starts_here path
            then put_quote quote_map percent path_index (new_quote percent path)
            else ok quote_map
        current_quote ← quote_at started percent path_index
        pool_addr ← or_type_error (get_elem? (addresses_of path.edges) hop)
        let hops = current_quote.calculated_edge_quotes
        let last_hop =
            if amount_specified_is_input then hop_before hops hop else hop_at hops (hop + 1)
        let trade = trade_of (starts_here path) trade_amount last_hop
        ok (started, push_request percent path_index pool_addr trade quote_updates)

  unfoldable pub visit_paths : ℕ → ℤ → ℕ → List TradePath → Building → Result Building
  visit_paths percent trade_amount path_index [] building = ok building
  visit_paths percent trade_amount path_index (path ∷ paths) building = do
    next ← visit_path percent trade_amount path_index path building
    visit_paths percent trade_amount (path_index + 1) paths next

  -- `if (!quoteMap[percent]) quoteMap[percent] = Array(paths.length)`.
  unfoldable pub with_entry : ℕ → ℕ → InternalQuoteMap → InternalQuoteMap
  with_entry percent num_paths quote_map = elim (entry_of quote_map percent) [
    | none ↦ put_entry quote_map percent (replicate num_paths none)
    | some quotes ↦ quote_map
  ]

  -- The loop over the amounts, each with its percent.
  unfoldable pub visit_amounts : List TradePath → List (ℕ × ℤ) → Building → Result Building
  visit_amounts paths [] building = ok building
  visit_amounts paths ((percent, trade_amount) ∷ amounts) (quote_map, quote_updates) = do
    next ←
        visit_paths percent trade_amount 0 paths
          (with_entry percent (length paths) quote_map, quote_updates)
    visit_amounts paths amounts next

  unfoldable pub build_quote_update_requests :
      List TradePath → List (ℕ × ℤ) → InternalQuoteMap → Result Building
  build_quote_update_requests paths amounts quote_map = visit_amounts paths amounts (quote_map, [])
