-- ===== src/Router/BatchSwapQuote.antt =====
-- sdk/src/router/batch-swap-quote.ts: the parameters of many quotes, with one fetch of their arrays.
pub mod Singly
use solana_dex_v.Prelude.{
  ℤ, Bool, Option, none, some, List, [], ◌∷◌, map, Result, ok, err, type_error, ◌>>=◌, ◌>>◌,
  invariant,
}
use solana_dex_v.Types.{PoolData, TickArrayData}
use solana_dex_v.Ticks.TickArraySequence.{TickArray, or_type_error}
use solana_dex_v.Tokens.TransferFees.{TokenExtensionContext}
use solana_dex_v.Swap.SwapQuote.{SwapQuoteParam}
use solana_dex_v.Swap.SwapUtils.{
  TickArrayRequest, get_token_type, get_batch_tick_arrays, get_default_sqrt_price_limit,
  get_default_other_amount_threshold,
}
use solana_dex_v.Swap.TokenQuote.{is_token, direction_for}

pub record SwapQuoteRequest (Key : Type 0) : Type 0 where
  pub whirlpool : Key
  pub trade_token_mint : Key
  pub token_amount : ℤ
  pub amount_specified_is_input : Bool

-- What the first pass makes of a request.
pub record Prepared (Key : Type 0) : Type 0 where
  pub whirlpool_data : PoolData Key
  pub token_amount : ℤ
  pub a_to_b : Bool
  pub whirlpool_address : Key
  pub amount_specified_is_input : Bool

-- `xs.map(f)` for a function that may throw.
abbrev pub map_result {ℓ κ} : {A : Type ℓ} {B : Type κ} → (A → Result B) → List A → Result (List B)
map_result f [] = ok []
map_result f (x ∷ xs) = do y ← f x; ys ← map_result f xs; ok (y ∷ ys)

abbrev pub tick_arrays_for : {Key : Type 0} → Prepared Key → TickArrayRequest Key
tick_arrays_for req = record {
  whirlpool_address = req.whirlpool_address;
  a_to_b = req.a_to_b;
  tick_current_index = req.whirlpool_data.tick_current_index;
  tick_spacing = req.whirlpool_data.tick_spacing;
}

-- `pools` is the map that the fetcher's getPools gives; `no_extension` is NO_TOKEN_EXTENSION_CONTEXT.
module _ {Key Mint : Type 0} (equals : Key → Key → Bool) (find_address : Key → ℤ → Key)
    (fetch : List Key → List (Option TickArrayData)) (pools : Key → Option (PoolData Key))
    (no_extension : TokenExtensionContext Mint) where
  unfoldable pub prepare : SwapQuoteRequest Key → Result (Prepared Key)
  prepare quote_req = do
    whirlpool_data ← or_type_error (pools quote_req.whirlpool)
    invariant (is_token (get_token_type equals whirlpool_data quote_req.trade_token_mint))
    ok (record {
      whirlpool_data = whirlpool_data;
      token_amount = quote_req.token_amount;
      a_to_b =
          direction_for equals whirlpool_data quote_req.trade_token_mint
            quote_req.amount_specified_is_input;
      whirlpool_address = quote_req.whirlpool;
      amount_specified_is_input = quote_req.amount_specified_is_input;
    })

  abbrev pub quote_param : Prepared Key → List (TickArray Key) → SwapQuoteParam Key Mint
  quote_param req tick_arrays = record {
    whirlpool_data = req.whirlpool_data;
    token_amount = req.token_amount;
    other_amount_threshold = get_default_other_amount_threshold req.amount_specified_is_input;
    sqrt_price_limit = get_default_sqrt_price_limit req.a_to_b;
    a_to_b = req.a_to_b;
    amount_specified_is_input = req.amount_specified_is_input;
    tick_arrays = tick_arrays;
    token_extension_ctx = no_extension;
  }

  -- The last pass; a request without arrays at its index would leave them undefined.
  unfoldable pub finish_params :
      List (Prepared Key) → List (List (TickArray Key)) → Result (List (SwapQuoteParam Key Mint))
  finish_params [] tick_arrays = ok []
  finish_params (req ∷ reqs) [] = err type_error
  finish_params (req ∷ reqs) (arrays ∷ tick_arrays) = do
    rest ← finish_params reqs tick_arrays
    ok (quote_param req arrays ∷ rest)

  unfoldable pub batch_build_swap_quote_params :
      List (SwapQuoteRequest Key) → Result (List (SwapQuoteParam Key Mint))
  batch_build_swap_quote_params quote_requests = do
    tick_array_requests ← map_result prepare quote_requests
    finish_params tick_array_requests
        (get_batch_tick_arrays find_address fetch (map tick_arrays_for tick_array_requests))
