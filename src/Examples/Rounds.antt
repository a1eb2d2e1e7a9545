-- ===== src/Examples/Rounds.antt =====
-- The second hop of a path through two pools.
use mathlib.Core.Path.{◌∙◌, sym}
use solana_dex_v.Prelude.{
  get_elem?-map, ℕ, zero, suc, ◌+◌, ◌<◌, ◌==◌, Bool-cases, inl, inr, Result, err, type_error,
  ErrorCode, ◌≡◌, refl, pos, Text, true, Option, none, some, List, [], ◌∷◌, map, length, get_elem?,
  ok, arith,
}
use solana_dex_v.Sdk.{TransferFee}
use solana_dex_v.Types.{PoolData}
use solana_dex_v.Swap.SwapQuote.{SwapQuoteParam}
use solana_dex_v.Router.Trades.{Trade, TradePath, TradeHop}
use solana_dex_v.Router.BatchSwapQuote.{SwapQuoteRequest}
use solana_dex_v.Router.QuoteMap.{success, InternalPathQuote, InternalQuoteMap}
use solana_dex_v.Router.QuoteRequests
use solana_dex_v.Router.QuoteRequests.{quote_at}
use solana_dex_v.Router.QuoteRequests.Lookups.{IsPlace}
use solana_dex_v.Router.QuoteRequests.Later.{HasPaths}
use solana_dex_v.Router.QuoteRounds.{quote_round}
use solana_dex_v.Router.QuoteRounds.Chained.{Linked, IsOpenFrom, AreLinked}
use solana_dex_v.Router.QuoteRounds.Rounds.{Answers, quote_round-AreLinked}
use solana_dex_v.Examples.Packages.{math_util, bn_bits, spl_token}

abbrev token : ℕ → Text
token n = n ∷ []

abbrev first_hop : TradeHop
first_hop = record {
  amount_in = pos 1000;
  amount_out = pos 900;
  whirlpool = token 11;
  input_mint = token 1;
  output_mint = token 2;
  mint_a = token 1;
  mint_b = token 2;
  vault_a = token 21;
  vault_b = token 22;
  quote = record {
    estimated_amount_in = pos 1000;
    estimated_amount_out = pos 900;
    estimated_end_tick_index = pos 0;
    estimated_end_sqrt_price = pos 0;
    estimated_fee_amount = pos 0;
    deducting_from_estimated_amount_in = pos 0;
    deducted_from_estimated_amount_out = pos 0;
    tick_array0 = none;
    tick_array1 = none;
    tick_array2 = none;
  };
  snapshot = record {
    a_to_b = true;
    sqrt_price = pos 0;
    fee_rate = record { numerator = pos 3000; denominator = pos 1000000 };
  };
}

abbrev half_quoted : InternalPathQuote
half_quoted = record {
  path = record {
    start_token_mint = token 1;
    end_token_mint = token 3;
    edges = record { pool_address = token 11 } ∷ record { pool_address = token 12 } ∷ [];
  };
  edges_pool_addrs = token 11 ∷ token 12 ∷ [];
  split_percent = 100;
  calculated_edge_quotes = some (success first_hop) ∷ none ∷ [];
}

abbrev quote_map : InternalQuoteMap
quote_map = (100, some half_quoted ∷ []) ∷ []

abbrev pool_data : PoolData Text
pool_data = record {
  fee_rate = 3000;
  protocol_fee_rate = 300;
  liquidity = pos 1000000000;
  sqrt_price = pos 18539204128674405812;
  tick_current_index = pos 100;
  token_mint_a = token 2;
  token_vault_a = token 31;
  fee_growth_global_a = pos 0;
  token_mint_b = token 3;
  token_vault_b = token 32;
  fee_growth_global_b = pos 0;
  reward_last_updated_timestamp = pos 0;
  reward_infos = [];
  tick_spacing = 64;
}

only_quote : (r j : ℕ) (q : InternalPathQuote) → quote_at quote_map r j ≡ ok q → q ≡ half_quoted
unfolding quote_at QuoteRequests.entry_of
only_quote r zero q e = elim (Bool-cases (100 == r)) [
  | inl here ↦ let same : ok q ≡ ok half_quoted = sym (rw here at e) in ground arith
  | inr other ↦ let missing : err type_error ≡ ok q = rw other at e in cc
]
only_quote r (suc j) q e = elim (Bool-cases (100 == r)) [
  | inl here ↦ let missing : err type_error ≡ ok q = rw here at e in cc
  | inr other ↦ let missing : err type_error ≡ ok q = rw other at e in cc
]

half_quoted-Linked : Linked half_quoted.calculated_edge_quotes
half_quoted-Linked zero b e = cc
half_quoted-Linked (suc i) b e = cc

half_quoted-IsOpenFrom : IsOpenFrom 1 half_quoted.calculated_edge_quotes
half_quoted-IsOpenFrom zero le = absurd (omega arith)
half_quoted-IsOpenFrom (suc zero) le = refl
half_quoted-IsOpenFrom (suc (suc i)) le = refl

quote_map-AreLinked : AreLinked 1 quote_map
quote_map-AreLinked r j q e = rw (only_quote r j q e) (half_quoted-Linked, half_quoted-IsOpenFrom)

abbrev trade : Trade
trade = record {
  token_in = token 1;
  token_out = token 3;
  trade_amount = pos 1000;
  amount_specified_is_input = true;
}

abbrev param_for : SwapQuoteRequest Text → SwapQuoteParam Text (Option TransferFee)
param_for r = record {
  whirlpool_data = pool_data;
  token_amount = r.token_amount;
  other_amount_threshold = pos 0;
  sqrt_price_limit = pos 4295048016;
  a_to_b = true;
  amount_specified_is_input = r.amount_specified_is_input;
  tick_arrays = [];
  token_extension_ctx = record {
    current_epoch = 1;
    token_mint_a = none;
    token_mint_b = none;
    reward_token_mints = λ i. none;
  };
}

abbrev batch :
    List (SwapQuoteRequest Text) → Result (List (SwapQuoteParam Text (Option TransferFee)))
batch rs = ok (map param_for rs)

batch-Answers :
    (rs : List (SwapQuoteRequest Text)) (params : List (SwapQuoteParam Text (Option TransferFee)))
    → batch rs ≡ ok params
    → Answers rs params
batch-Answers rs params e i r p at found =
    let all : map param_for rs ≡ params = ground arith in
    let place : get_elem? (map param_for rs) i ≡ some p = rw all found in
    let same : some (param_for r) ≡ some p = sym (get_elem?-map param_for rs i r at) ∙ place in
    let is_p : param_for r ≡ p = ground arith in rw (← is_p) (refl, refl)

quote_map-HasPaths :
    HasPaths (token 1) (token 3) 0 quote_map (half_quoted.path ∷ []) (100, pos 1000)
unfolding quote_at QuoteRequests.entry_of
quote_map-HasPaths = ((some half_quoted ∷ [], refl), placed)
  where
    placed :
        (i : ℕ) (path : TradePath)
        → get_elem? (half_quoted.path ∷ []) i ≡ some path
        → 1 < length path.edges
        → IsPlace quote_map 100 (0 + i)
    placed zero path at longer = (half_quoted, refl)
    placed (suc i) path at longer = cc

quote_round-AreLinked_example :
    (rs : List (SwapQuoteRequest Text)) × ((code : ErrorCode)
      → batch rs ≡ err code
      → quote_round math_util bn_bits spl_token 50 batch trade
          (half_quoted.path ∷ [])
          ((100, pos 1000) ∷ [])
          1
          quote_map
        ≡ err code)
    × ((params : List (SwapQuoteParam Text (Option TransferFee)))
        → batch rs ≡ ok params
        → (next : InternalQuoteMap) × (quote_round math_util bn_bits spl_token 50 batch trade
              (half_quoted.path ∷ [])
              ((100, pos 1000) ∷ [])
              1
              quote_map
            ≡ ok next)
          × AreLinked 2 next)
quote_round-AreLinked_example =
    quote_round-AreLinked math_util bn_bits spl_token 50 batch trade (half_quoted.path ∷ [])
      ((100, pos 1000) ∷ []) batch-Answers refl 0 quote_map quote_map-AreLinked
      (quote_map-HasPaths, tt)
