-- ===== src/Router/Routes.antt =====
-- sdk/src/router/convert-quote-map.ts: the routes that send all of a trade through quoted paths.
pub mod Parts
pub mod Splits
use mathlib.Core.List.{reverse}
use solana_dex_v.Prelude.{
  ℕ, zero, suc, ◌+◌, ltb, ◌==◌, ℤ, pos, ◌+ℤ◌, Text, includes, Bool, true, false, ◌||◌, Option, none,
  some, List, [], ◌∷◌, ◌++◌, map, length, any_of, last_of, filter_by, Result, ok, err, out_of_fuel,
  ◌>>=◌, if◌then◌else◌,
}
use solana_dex_v.Router.Trades.{PathQuote, SubTradeRoute, TradeRoute}

-- A record from percents to quotes. `Object.keys` lists the percents in ascending order, and so does
-- the list.
abbrev pub SanitizedQuoteMap : Type 0
SanitizedQuoteMap = List (ℕ × List PathQuote)

pub record InternalRoute : Type 0 where
  pub quotes : List PathQuote
  pub split_percent : ℕ
  pub total_in : ℤ
  pub total_out : ℤ

unfoldable pub percents_of : SanitizedQuoteMap → List ℕ
percents_of [] = []
percents_of ((percent, quotes) ∷ quote_map) = percent ∷ percents_of quote_map

-- The quotes of a percent; none for a percent that is no key.
unfoldable pub quotes_of : SanitizedQuoteMap → ℕ → List PathQuote
quotes_of [] percent = []
quotes_of ((key, quotes) ∷ quote_map) percent =
    if key == percent then quotes else quotes_of quote_map percent

-- `{...quoteMap, [percent]: quotes}` for a percent that is a key; no other is put.
unfoldable pub put_quotes : SanitizedQuoteMap → ℕ → List PathQuote → SanitizedQuoteMap
put_quotes [] percent quotes = (percent, quotes) ∷ []
put_quotes ((key, old) ∷ quote_map) percent quotes =
    if key == percent
    then (key, quotes) ∷ quote_map
    else (key, old) ∷ put_quotes quote_map percent quotes

unfoldable pub has_reused_pools : PathQuote → List PathQuote → Bool
has_reused_pools next_quote quotes =
    any_of (λ r1. any_of (λ r2. any_of (λ r3. includes r3 r1) r2.edges_pool_addrs) quotes)
      next_quote.edges_pool_addrs

-- `quotes.length > 0 && nextPercent > quotes[quotes.length - 1].splitPercent`.
unfoldable pub exceeds_last : List PathQuote → ℕ → Bool
exceeds_last quotes next_percent = elim (last_of quotes) [
  | none ↦ false
  | some last ↦ ltb last.split_percent next_percent
]

unfoldable pub add_quote : InternalRoute → ℕ → PathQuote → InternalRoute
add_quote current new_percent_total next_quote = record {
  quotes = current.quotes ++ next_quote ∷ [];
  split_percent = new_percent_total;
  total_in = current.total_in +ℤ next_quote.amount_in;
  total_out = current.total_out +ℤ next_quote.amount_out;
}

-- A call of `buildRoutes` with a smaller map.
abbrev pub Recurse : Type 0
Recurse = SanitizedQuoteMap → InternalRoute → List InternalRoute → Result (List InternalRoute)

module _ (recurse : Recurse) (max_splits : ℕ) (quote_map : SanitizedQuoteMap)
    (current : InternalRoute) where
  -- The body of the loop over the quotes of a percent; the candidates are the quotes after this.
  unfoldable pub visit_quote :
      ℕ → PathQuote → List PathQuote → List InternalRoute → Result (List InternalRoute)
  visit_quote percent next_quote candidates routes =
      let total = current.split_percent + percent in
      let next_route = add_quote current total next_quote in
      if has_reused_pools next_quote current.quotes
      then ok routes
      else if total == 100
      then ok (routes ++ next_route ∷ [])
      else if length current.quotes + 1 == max_splits
      then ok routes
      else recurse (put_quotes quote_map percent candidates) next_route routes

  unfoldable pub visit_quotes :
      ℕ → List PathQuote → List InternalRoute → Result (List InternalRoute)
  visit_quotes percent [] routes = ok routes
  visit_quotes percent (quote ∷ quotes) routes = do
    extended ← visit_quote percent quote quotes routes
    visit_quotes percent quotes extended

  -- The loop over the percents, the largest first.
  unfoldable pub visit_percents : List ℕ → List InternalRoute → Result (List InternalRoute)
  visit_percents [] routes = ok routes
  visit_percents (percent ∷ percents) routes = do
    extended ←
        if ltb 100 (current.split_percent + percent) || exceeds_last current.quotes percent
        then ok routes
        else visit_quotes percent (quotes_of quote_map percent) routes
    visit_percents percents extended

unfoldable pub build_routes : ℕ → ℕ → Recurse
build_routes zero max_splits quote_map current routes = err out_of_fuel
build_routes (suc fuel) max_splits quote_map current routes =
    visit_percents (build_routes fuel max_splits) max_splits quote_map current
      (reverse (percents_of quote_map)) routes

abbrev pub empty_route : InternalRoute
empty_route = record { quotes = []; split_percent = 0; total_in = pos 0; total_out = pos 0 }

-- Each nested call has fewer quotes.
unfoldable pub num_quotes : SanitizedQuoteMap → ℕ
num_quotes [] = 0
num_quotes ((percent, quotes) ∷ quote_map) = length quotes + num_quotes quote_map

unfoldable pub generate_routes : SanitizedQuoteMap → ℕ → Result (List InternalRoute)
generate_routes quote_map max_splits =
    build_routes (suc (num_quotes quote_map)) max_splits quote_map empty_route []
