-- ===== src/Swap/TokenQuote.antt =====
-- swapQuoteByInputToken and swapQuoteByOutputToken (sdk/src/quotes/public/swap-quote.ts): the quote of a
-- swap of one of the pool's tokens, with the default limits.
pub mod Defaults
use solana_dex_v.Prelude.{
  ℕ, ℤ, Bool, true, false, Option, none, some, List, Result, ok, ◌>>=◌, ◌>>◌, invariant,
}
use solana_dex_v.Sdk.{MathUtil, Percentage, SplToken}
use solana_dex_v.Types.{PoolData, TickArrayData}
use solana_dex_v.Price.PriceMath.{BnBits}
use solana_dex_v.Tokens.TransferFees.{TokenExtensionContext}
use solana_dex_v.Swap.SwapQuote.{SwapQuoteParam, SwapQuote}
use solana_dex_v.Swap.SlippageQuote.{SwapAmounts, swap_quote_with_params}
use solana_dex_v.Swap.SwapUtils.{
  TokenType, TickArrayRequest, get_token_type, get_swap_direction, is_a_to_b, get_tick_arrays,
  get_default_sqrt_price_limit, get_default_other_amount_threshold,
}

-- `!!swapTokenType`.
abbrev pub is_token : Option TokenType → Bool
is_token none = false
is_token (some token_type) = true

-- The client's pool: its address and its data.
pub record Pool (Key : Type 0) : Type 0 where
  pub pool_address : Key
  pub pool_data : PoolData Key

abbrev pub direction_for : {Key : Type 0} → (Key → Key → Bool) → PoolData Key → Key → Bool → Bool
direction_for equals pool mint is_input = is_a_to_b (get_swap_direction equals pool mint is_input)

abbrev pub request_for : {Key : Type 0} → Pool Key → Bool → TickArrayRequest Key
request_for pool a_to_b = record {
  whirlpool_address = pool.pool_address;
  a_to_b = a_to_b;
  tick_current_index = pool.pool_data.tick_current_index;
  tick_spacing = pool.pool_data.tick_spacing;
}

-- `ctx` is the token extension context that is fetched for the pool.
module _ {Key Mint : Type 0} (equals : Key → Key → Bool) (find_address : Key → ℤ → Key)
    (fetch : List Key → List (Option TickArrayData)) (ctx : TokenExtensionContext Mint) where
  unfoldable pub swap_quote_by_token : Pool Key → Key → ℤ → Bool → Result (SwapQuoteParam Key Mint)
  swap_quote_by_token pool input_token_mint token_amount amount_specified_is_input = do
    invariant (is_token (get_token_type equals pool.pool_data input_token_mint))
    let a_to_b = direction_for equals pool.pool_data input_token_mint amount_specified_is_input
    tick_arrays ← get_tick_arrays find_address fetch (request_for pool a_to_b)
    ok (record {
      whirlpool_data = pool.pool_data;
      token_amount = token_amount;
      other_amount_threshold = get_default_other_amount_threshold amount_specified_is_input;
      sqrt_price_limit = get_default_sqrt_price_limit a_to_b;
      a_to_b = a_to_b;
      amount_specified_is_input = amount_specified_is_input;
      tick_arrays = tick_arrays;
      token_extension_ctx = ctx;
    })

  module _ {Config : Type 0} (math : MathUtil) (bits : BnBits) (spl : SplToken Mint Config)
      (fuel : ℕ) where
    unfoldable pub swap_quote_by_input_token :
        Pool Key → Key → ℤ → Percentage → Result (SwapQuote Key × SwapAmounts)
    swap_quote_by_input_token pool input_token_mint token_amount slippage_tolerance = do
      params ← swap_quote_by_token pool input_token_mint token_amount true
      swap_quote_with_params math bits spl fuel params slippage_tolerance

    unfoldable pub swap_quote_by_output_token :
        Pool Key → Key → ℤ → Percentage → Result (SwapQuote Key × SwapAmounts)
    swap_quote_by_output_token pool output_token_mint token_amount slippage_tolerance = do
      params ← swap_quote_by_token pool output_token_mint token_amount false
      swap_quote_with_params math bits spl fuel params slippage_tolerance
