-- ===== src/Router/Trades.antt =====
-- The types of sdk/src/router/public/index.ts, quote-map.ts and utils/graphs/public/pool-graph.ts.
-- Addresses are texts.
use solana_dex_v.Prelude.{ℕ, ℤ, Text, List, Bool}
use solana_dex_v.Sdk.{Percentage}
use solana_dex_v.Swap.SwapQuote.{SwapQuote}

pub record Edge : Type 0 where
  pub pool_address : Text

pub record TradePath : Type 0 where
  pub start_token_mint : Text
  pub end_token_mint : Text
  pub edges : List Edge

pub record TradeHopSnapshot : Type 0 where
  pub a_to_b : Bool
  pub sqrt_price : ℤ
  pub fee_rate : Percentage

pub record TradeHop : Type 0 where
  pub amount_in : ℤ
  pub amount_out : ℤ
  pub whirlpool : Text
  pub input_mint : Text
  pub output_mint : Text
  pub mint_a : Text
  pub mint_b : Text
  pub vault_a : Text
  pub vault_b : Text
  pub quote : SwapQuote Text
  pub snapshot : TradeHopSnapshot

-- A quote of one path for one part of the trade.
pub record PathQuote : Type 0 where
  pub path : TradePath
  pub edges_pool_addrs : List Text
  pub split_percent : ℕ
  pub amount_in : ℤ
  pub amount_out : ℤ
  pub calculated_edge_quotes : List TradeHop

pub record SubTradeRoute : Type 0 where
  pub path : TradePath
  pub split_percent : ℕ
  pub amount_in : ℤ
  pub amount_out : ℤ
  pub hop_quotes : List TradeHop

pub record TradeRoute : Type 0 where
  pub sub_routes : List SubTradeRoute
  pub total_amount_in : ℤ
  pub total_amount_out : ℤ

pub record Trade : Type 0 where
  pub token_in : Text
  pub token_out : Text
  pub trade_amount : ℤ
  pub amount_specified_is_input : Bool

pub record RoutingOptions : Type 0 where
  pub percent_increment : ℕ
  pub num_top_routes : ℕ
  pub num_top_partial_quotes : ℕ
  pub max_splits : ℕ
