-- ===== src/Router/QuoteMap.antt =====
-- sdk/src/router/quote-map.ts: the parts that a trade is split into, and the cleaned map of quotes.
pub mod Whole
use solana_dex_v.Prelude.{
  ℕ, zero, suc, ◌+◌, ◌*◌, ◌/◌, ◌==◌, ℤ, pos, ◌*ℤ◌, leb_ℤ, Text, Bool, true, false, Option, none,
  some, List, [], ◌∷◌, ◌++◌, length, sort_by, take, any_of, error_number, ErrorCode, type_error,
  Result, ok, err, ◌>>=◌, if◌then◌else◌,
}
use solana_dex_v.Bn.{div}
use solana_dex_v.Router.Trades.{TradePath, TradeHop, PathQuote}
use solana_dex_v.Router.Routes.{SanitizedQuoteMap}

-- `errorCode` of what was caught: undefined for an error that is not the program's own.
abbrev pub FailureCode : Type 0
FailureCode = Option ErrorCode

abbrev pub code_number : FailureCode → ℕ
code_number none = 0
code_number (some code) = suc (error_number code)

pub data TradeHopQuoteResult : Type 0 where
  success : TradeHop → TradeHopQuoteResult
  failure : FailureCode → TradeHopQuoteResult

-- A hop that is not quoted yet is undefined.
pub record InternalPathQuote : Type 0 where
  pub path : TradePath
  pub edges_pool_addrs : List Text
  pub split_percent : ℕ
  pub calculated_edge_quotes : List (Option TradeHopQuoteResult)

-- A path whose quotes were never started is undefined. The percents ascend, as `Object.keys` has them.
abbrev pub InternalQuoteMap : Type 0
InternalQuoteMap = List (ℕ × List (Option InternalPathQuote))

-- The rounds from i on, for a positive step.
unfoldable pub split_from : ℕ → ℕ → ℤ → ℕ → Result (List (ℕ × ℤ))
split_from zero i input_amount min_percent = ok []
split_from (suc rounds) i input_amount min_percent = do
  amount ← div (input_amount *ℤ pos (i * min_percent)) (pos 100)
  rest ← split_from rounds (i + 1) input_amount min_percent
  ok ((i * min_percent, amount) ∷ rest)

-- The percents with their amounts, for a positive step: `i <= 100 / minPercent` is a number of rounds.
unfoldable pub get_split_percentage_amts : ℤ → ℕ → Result (List (ℕ × ℤ))
get_split_percentage_amts input_amount min_percent =
    split_from (100 / min_percent) 1 input_amount min_percent

-- `calculatedHops.flatMap((val) => !!val && val.success ? val : [])`.
unfoldable pub successes : List (Option TradeHopQuoteResult) → List TradeHop
successes [] = []
successes (none ∷ hops) = successes hops
successes (some (success hop) ∷ hops) = hop ∷ successes hops
successes (some (failure code) ∷ hops) = successes hops

unfoldable pub failures : List (Option TradeHopQuoteResult) → List FailureCode
failures [] = []
failures (none ∷ hops) = failures hops
failures (some (success hop) ∷ hops) = failures hops
failures (some (failure code) ∷ hops) = code ∷ failures hops

abbrev pub last_hop : TradeHop → List TradeHop → TradeHop
last_hop hop [] = hop
last_hop hop (next ∷ hops) = last_hop next hops

-- The quote of a path whose hops all succeeded; a path of no hops has no first hop.
unfoldable pub whole_quote : InternalPathQuote → ℕ → List TradeHop → Result PathQuote
whole_quote quote percent [] = err type_error
whole_quote quote percent (hop ∷ hops) = ok (record {
  path = quote.path;
  edges_pool_addrs = quote.edges_pool_addrs;
  split_percent = percent;
  amount_in = hop.amount_in;
  amount_out = (last_hop hop hops).amount_out;
  calculated_edge_quotes = hop ∷ hops;
})

-- What was cleaned so far, and the errors.
abbrev pub Cleaned : Type 0
Cleaned = List PathQuote × List FailureCode

-- `failureErrors.add(code)`: a set keeps the order in which its elements came.
unfoldable pub add_error : List FailureCode → FailureCode → List FailureCode
add_error failure_errors code =
    if any_of (λ c. code_number c == code_number code) failure_errors
    then failure_errors
    else failure_errors ++ code ∷ []

-- `failureErrors.add(quoteFailures[0].error)`.
unfoldable pub first_failure : Cleaned → List FailureCode → Result Cleaned
first_failure cleaned [] = err type_error
first_failure cleaned (code ∷ codes) = ok (cleaned.0, add_error cleaned.1 code)

unfoldable pub clean_quote : ℕ → Cleaned → Option InternalPathQuote → Result Cleaned
clean_quote percent cleaned none = err type_error
clean_quote percent cleaned (some quote) =
    let hops = successes quote.calculated_edge_quotes in
    if length hops == length quote.edges_pool_addrs
    then (whole_quote quote percent hops >>= λ q. ok (cleaned.0 ++ q ∷ [], cleaned.1))
    else first_failure cleaned (failures quote.calculated_edge_quotes)

unfoldable pub clean_quotes : ℕ → Cleaned → List (Option InternalPathQuote) → Result Cleaned
clean_quotes percent cleaned [] = ok cleaned
clean_quotes percent cleaned (quote ∷ quotes) = do
  next ← clean_quote percent cleaned quote
  clean_quotes percent next quotes

unfoldable pub clean_map :
    InternalQuoteMap → List FailureCode → Result (SanitizedQuoteMap × List FailureCode)
clean_map [] errors = ok ([], errors)
clean_map ((percent, quotes) ∷ quote_map) errors = do
  cleaned ← clean_quotes percent ([], errors) quotes
  rest ← clean_map quote_map cleaned.1
  ok ((percent, cleaned.0) ∷ rest.0, rest.1)

-- The comparison is not positive: the better quote first.
unfoldable pub is_better : Bool → PathQuote → PathQuote → Bool
is_better amount_specified_is_input a b =
    if amount_specified_is_input
    then leb_ℤ b.amount_out a.amount_out
    else leb_ℤ a.amount_in b.amount_in

unfoldable pub prune_map : SanitizedQuoteMap → ℕ → Bool → SanitizedQuoteMap
prune_map [] prune_n amount_specified_is_input = []
prune_map ((percent, quotes) ∷ quote_map) prune_n amount_specified_is_input =
    (percent, take prune_n (sort_by (is_better amount_specified_is_input) quotes))
    ∷ prune_map quote_map prune_n amount_specified_is_input

unfoldable pub sanitize_quote_map :
    InternalQuoteMap → ℕ → Bool → Result (SanitizedQuoteMap × List FailureCode)
sanitize_quote_map quote_map prune_n amount_specified_is_input = do
  cleaned ← clean_map quote_map []
  ok (prune_map cleaned.0 prune_n amount_specified_is_input, cleaned.1)
