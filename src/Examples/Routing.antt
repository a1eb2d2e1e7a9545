-- ===== src/Examples/Routing.antt =====
-- Three pools of three tokens, and routes over them.
use mathlib.Core.List.{Memᴰ}
use solana_dex_v.Prelude.{
  ℕ, ◌≡◌, ◌≢◌, refl, sym, ◌∙◌, pos, Text, true, false, Option, some, inl, inr, zero_tradable_amount,
  text_eq, none, List, [], ◌∷◌, get_key, put_key, text_ltb, includes, starts_with, All-at, ap, All,
  ok, arith, if◌then◌else◌,
}
use solana_dex_v.Router.Trades.{TradePath, TradeHop, PathQuote}
use solana_dex_v.Router.PoolGraph
use solana_dex_v.Router.PoolGraph.{PoolTokenPair, build_pool_graph, get_path}
use solana_dex_v.Router.PoolGraph.Walks.{ArePools, IsWalk}
use solana_dex_v.Router.PoolGraph.Search.{path_of, get_path-IsWalk}
use solana_dex_v.Router.Routes
use solana_dex_v.Router.Routes.{SanitizedQuoteMap, InternalRoute, quotes_of, generate_routes}
use solana_dex_v.Router.Routes.Parts.{IsRoute}
use solana_dex_v.Router.Routes.Splits.{generate_routes-IsRoute}
use solana_dex_v.Router.QuoteMap
use solana_dex_v.Router.QuoteMap.{
  FailureCode, TradeHopQuoteResult, success, failure, InternalPathQuote, InternalQuoteMap,
  sanitize_quote_map,
}
use solana_dex_v.Router.QuoteMap.Whole.{
  IsWhole, AreTried, IsPruned, sanitize_quote_map-generate_routes,
}

abbrev token : ℕ → Text
token n = n ∷ []

abbrev pool : ℕ → ℕ → ℕ → PoolTokenPair
pool addr a b = record { address = token addr; token_mint_a = token a; token_mint_b = token b }

abbrev pools : List PoolTokenPair
pools = pool 11 1 2 ∷ pool 12 1 3 ∷ pool 13 3 2 ∷ []

-- From token 2 to token 1: directly, or through token 3.
get_path_test :
    get_path (build_pool_graph pools) (token 2) (token 1) none
    ≡ path_of (token 2) (token 1) (token 11 ∷ [])
      ∷ path_of (token 2) (token 1) (token 13 ∷ token 12 ∷ [])
      ∷ []
unfolding get_path build_pool_graph PoolGraph.add_pools PoolGraph.add_pool PoolGraph.add_token
    PoolGraph.add_text PoolGraph.start_entry PoolGraph.push_edge PoolGraph.or_empty
    PoolGraph.get_paths_for_pairs PoolGraph.paths_for_pair PoolGraph.find_walks PoolGraph.find_walk
    PoolGraph.find_paths PoolGraph.single_hops PoolGraph.second_hops PoolGraph.hops_after
    PoolGraph.has_pool PoolGraph.is_intermediate PoolGraph.sort_pair PoolGraph.get_search_path_id
    PoolGraph.get_hops_from_route get_key text_eq put_key text_ltb
get_path_test = refl

-- The pool of an address.
abbrev pool_named : Text → PoolTokenPair
pool_named addr =
    if text_eq addr (token 11)
    then pool 11 1 2
    else if text_eq addr (token 12)
    then pool 12 1 3
    else pool 13 3 2

pools_named : All (λ p. p ≡ pool_named p.address) pools
unfolding text_eq
pools_named = (refl, (refl, (refl, tt)))

pools_apart : All (λ p. p.token_mint_a ≢ p.token_mint_b) pools
pools_apart = ground arith

pools-ArePools : ArePools pools
pools-ArePools = record {
  one_pool = λ p q mp mq e.
      All-at (λ (r : PoolTokenPair). r ≡ pool_named r.address) pools pools_named p mp
      ∙ ap pool_named e
      ∙ sym (All-at (λ (r : PoolTokenPair). r ≡ pool_named r.address) pools pools_named q mq);
  two_tokens = λ p mp.
      All-at (λ (r : PoolTokenPair). r.token_mint_a ≢ r.token_mint_b) pools pools_apart p mp;
}

get_path-IsWalk_example :
    ((path : TradePath)
      → Memᴰ path (get_path (build_pool_graph pools) (token 2) (token 1) none)
      → (route : List Text) × (path ≡ path_of (token 2) (token 1) route)
        × IsWalk pools none (token 2) (token 1) route)
    × ((route : List Text)
        → IsWalk pools none (token 2) (token 1) route
        → Memᴰ
            (path_of (token 2) (token 1) route)
            (get_path (build_pool_graph pools) (token 2) (token 1) none))
get_path-IsWalk_example =
    get_path-IsWalk pools pools-ArePools none (token 2) (token 1) (ground arith)

abbrev quote : ℕ → ℕ → ℕ → ℕ → PathQuote
quote addr percent amount_in amount_out = record {
  path = path_of (token 2) (token 1) (token addr ∷ []);
  edges_pool_addrs = token addr ∷ [];
  split_percent = percent;
  amount_in = pos amount_in;
  amount_out = pos amount_out;
  calculated_edge_quotes = [];
}

abbrev quote_map : SanitizedQuoteMap
quote_map =
    (50, quote 11 50 500 490 ∷ quote 12 50 500 480 ∷ []) ∷ (100, quote 11 100 1000 900 ∷ []) ∷ []

-- The whole trade through one pool, or a half through each.
generate_routes_test :
    generate_routes quote_map 3
    ≡ ok (
        record {
          quotes = quote 11 100 1000 900 ∷ [];
          split_percent = 100;
          total_in = pos 1000;
          total_out = pos 900;
        }
        ∷ record {
          quotes = quote 11 50 500 490 ∷ quote 12 50 500 480 ∷ [];
          split_percent = 100;
          total_in = pos 1000;
          total_out = pos 970;
        }
        ∷ [])
unfolding generate_routes Routes.build_routes Routes.num_quotes Routes.visit_percents
    Routes.visit_quotes Routes.visit_quote Routes.add_quote Routes.exceeds_last
    Routes.has_reused_pools Routes.put_quotes Routes.quotes_of Routes.percents_of includes
    starts_with
generate_routes_test = refl

quote_map_kept : (p : ℕ) → All (λ q. q.split_percent ≡ p) (quotes_of quote_map p)
unfolding quotes_of
quote_map_kept p = ground arith

generate_routes-IsRoute_example :
    (routes : List InternalRoute) × (generate_routes quote_map 3 ≡ ok routes)
    × All (IsRoute (λ q. Memᴰ q (quotes_of quote_map q.split_percent)) 3) routes
generate_routes-IsRoute_example = generate_routes-IsRoute quote_map 3 quote_map_kept (omega arith)

abbrev hop : ℕ → ℕ → ℕ → TradeHop
hop addr amount_in amount_out = record {
  amount_in = pos amount_in;
  amount_out = pos amount_out;
  whirlpool = token addr;
  input_mint = token 2;
  output_mint = token 1;
  mint_a = token 1;
  mint_b = token 2;
  vault_a = token 21;
  vault_b = token 22;
  quote = record {
    estimated_amount_in = pos amount_in;
    estimated_amount_out = pos amount_out;
    estimated_end_tick_index = pos 0;
    estimated_end_sqrt_price = pos 0;
    estimated_fee_amount = pos 0;
    deducting_from_estimated_amount_in = pos 0;
    deducted_from_estimated_amount_out = pos 0;
    tick_array0 = none;
    tick_array1 = none;
    tick_array2 = none;
  };
  snapshot = record {
    a_to_b = false;
    sqrt_price = pos 0;
    fee_rate = record { numerator = pos 3000; denominator = pos 1000000 };
  };
}

abbrev tried : ℕ → List (Option TradeHopQuoteResult) → List Text → Option InternalPathQuote
tried percent hops addrs = some (record {
  path = path_of (token 2) (token 1) addrs;
  edges_pool_addrs = addrs;
  split_percent = percent;
  calculated_edge_quotes = hops;
})

-- Three paths for all of the trade; the hop of the second fails.
abbrev tried_quotes : InternalQuoteMap
tried_quotes =
    (
      100,
      tried 100 (some (success (hop 11 1000 900)) ∷ []) (token 11 ∷ [])
          ∷ tried 100 (some (failure (some zero_tradable_amount)) ∷ none ∷ [])
              (token 13 ∷ token 12 ∷ [])
          ∷ tried 100 (some (success (hop 14 1000 950)) ∷ []) (token 14 ∷ [])
          ∷ [],
    )
    ∷ []

tried_quotes-AreTried : AreTried tried_quotes
unfolding QuoteMap.successes QuoteMap.failures
tried_quotes-AreTried = (
  ((omega arith, inl refl), ((omega arith, inr (omega arith)), ((omega arith, inl refl), tt))),
  tt,
)

sanitize_quote_map-generate_routes_example :
    (r : SanitizedQuoteMap × List FailureCode) × (sanitize_quote_map tried_quotes 2 true ≡ ok r)
    × IsPruned 2 true r.0
    × (routes : List InternalRoute) × (generate_routes r.0 3 ≡ ok routes)
    × All (IsRoute IsWhole 3) routes
sanitize_quote_map-generate_routes_example =
    sanitize_quote_map-generate_routes tried_quotes 2 3 true tried_quotes-AreTried (omega arith)
