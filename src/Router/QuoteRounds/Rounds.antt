-- ===== src/Router/QuoteRounds/Rounds.antt =====
-- A round of quotes after the first, for an exact input.
use mathlib.Core.Path.{◌∙◌, sym, subst}
use solana_dex_v.Prelude.{
  get_elem?-map, ℕ, suc, ◌≡◌, refl, ℤ, Text, true, some, List, [], ◌∷◌, map, get_elem?, All,
  ErrorCode, Result, ok, err, arith,
}
use solana_dex_v.Sdk.{MathUtil, SplToken}
use solana_dex_v.Price.PriceMath.{BnBits}
use solana_dex_v.Swap.SwapQuote.{SwapQuoteParam}
use solana_dex_v.Router.Trades.{TradePath, Trade}
use solana_dex_v.Router.BatchSwapQuote.{SwapQuoteRequest}
use solana_dex_v.Router.QuoteMap.{InternalQuoteMap}
use solana_dex_v.Router.QuoteRequests.{QuoteRequest, build_quote_update_requests}
use solana_dex_v.Router.QuoteRequests.Later.{
  Asks, AreNumbered, HasPaths, build_quote_update_requests-Leaves,
}
use solana_dex_v.Router.QuoteRounds.{populate_quote_map, quote_round}
use solana_dex_v.Router.QuoteRounds.Chained.{AreLinked, Fits, populate_quote_map-AreLinked}

All-index {ℓ κ μ} :
    {A : Type ℓ} (P : A → Type κ) (Q : A → Type μ) (xs : List A)
    → ((i : ℕ) (x : A) → get_elem? xs i ≡ some x → P x → Q x)
    → All P xs
    → All Q xs
All-index P Q [] f h = tt
All-index P Q (x ∷ xs) f h = (f 0 x refl h.0, All-index P Q xs (λ i y e. f (suc i) y e) h.1)

abbrev pub request_of : QuoteRequest → SwapQuoteRequest Text
request_of u = u.request

-- Parameters that answer requests: at each index, those of the request.
abbrev pub Answers :
    {Mint : Type 0} → List (SwapQuoteRequest Text) → List (SwapQuoteParam Text Mint) → Type 0
Answers {Mint} rs params =
    (i : ℕ) (r : SwapQuoteRequest Text) (p : SwapQuoteParam Text Mint)
    → get_elem? rs i ≡ some r
    → get_elem? params i ≡ some p
    → (p.amount_specified_is_input ≡ r.amount_specified_is_input)
      × (p.token_amount ≡ r.token_amount)

Asks-Fits :
    {Mint : Type 0} (h : ℕ) (m : InternalQuoteMap) (us : List QuoteRequest)
    (params : List (SwapQuoteParam Text Mint))
    → Answers (map request_of us) params
    → AreNumbered us
    → All (Asks h m) us
    → All (Fits params h m) us
Asks-Fits h m us params answers numbered asks =
    All-index (Asks h m) (Fits params h m) us
      (λ i u at ask. record {
        of_hop = ask.of_hop;
        placed = ask.placed;
        given = ask.given;
        matched = λ p found.
            let here = get_elem?-map request_of us i u at in
            let (is_input, same) = answers i u.request p here (rw (← numbered i u at) found) in
            (is_input ∙ ask.as_input, same);
      })
      asks

AreLinked-suc : (h : ℕ) (m : InternalQuoteMap) → AreLinked h m → AreLinked (suc h) m
AreLinked-suc h m linked r j q e =
    let (hops, later) = linked r j q e in (hops, λ i le. later i (omega (arith, le)))

module _ {Mint Config : Type 0} (math : MathUtil) (bits : BnBits) (spl : SplToken Mint Config)
    (fuel : ℕ) (batch : List (SwapQuoteRequest Text) → Result (List (SwapQuoteParam Text Mint)))
    (trade : Trade) (paths : List TradePath) (amounts : List (ℕ × ℤ)) where
  round_fails :
      (h : ℕ) (m : InternalQuoteMap) (us : List QuoteRequest) (code : ErrorCode)
      → build_quote_update_requests trade.token_in trade.token_out h trade.amount_specified_is_input
          paths amounts m
        ≡ ok (m, us)
      → batch (map request_of us) ≡ err code
      → quote_round math bits spl fuel batch trade paths amounts h m ≡ err code
  unfolding quote_round
  round_fails h m us code built failed = rw (built, failed) refl

  round_ends :
      (h : ℕ) (m next : InternalQuoteMap) (us : List QuoteRequest)
      (params : List (SwapQuoteParam Text Mint))
      → build_quote_update_requests trade.token_in trade.token_out h trade.amount_specified_is_input
          paths amounts m
        ≡ ok (m, us)
      → batch (map request_of us) ≡ ok params
      → populate_quote_map math bits spl fuel us params m ≡ ok next
      → quote_round math bits spl fuel batch trade paths amounts h m ≡ ok next
  unfolding quote_round
  round_ends h m next us params built given populated = rw (built, given) populated

  -- Take a round after the first, k + 1, of a trade with an exact input. Let the hops of the quotes in
  -- the map be linked and none be quoted from k + 1 on, let the map have a quote for every percent
  -- and every path that is longer, and let the parameters of a batch be for the amounts of its
  -- requests. Then the round asks one batch of requests. If the batch fails, so does the round, with
  -- its error; otherwise the round ends, whatever the quotes of single hops throw. After it the hops
  -- are linked: a hop that succeeded comes after one that did, and starts with the amount it gave.
  pub quote_round-AreLinked :
      ((rs : List (SwapQuoteRequest Text)) (params : List (SwapQuoteParam Text Mint))
        → batch rs ≡ ok params
        → Answers rs params)
      → trade.amount_specified_is_input ≡ true
      → (k : ℕ) (m : InternalQuoteMap) → AreLinked (suc k) m
      → All (HasPaths trade.token_in trade.token_out k m paths) amounts
      → (rs : List (SwapQuoteRequest Text)) × ((code : ErrorCode)
          → batch rs ≡ err code
          → quote_round math bits spl fuel batch trade paths amounts (suc k) m ≡ err code)
        × ((params : List (SwapQuoteParam Text Mint))
            → batch rs ≡ ok params
            → (next : InternalQuoteMap) × (quote_round math bits spl fuel batch trade paths amounts
                  (suc k)
                  m
                ≡ ok next)
              × AreLinked (suc (suc k)) next)
  quote_round-AreLinked answers is_input k m linked has =
      let (us, leaves, asks, numbered) =
        build_quote_update_requests-Leaves trade.token_in trade.token_out k m paths amounts has in
      let built =
        subst
          (λ b.
            build_quote_update_requests trade.token_in trade.token_out (suc k) b paths amounts m
            ≡ ok (m, us))
          (sym is_input) leaves in
      (
        map request_of us,
        λ code failed. round_fails (suc k) m us code built failed,
        λ params given.
            let fits =
              Asks-Fits (suc k) m us params (answers (map request_of us) params given) numbered
                asks in
            let (next, populated, end) =
              populate_quote_map-AreLinked math bits spl fuel params (suc k) us m
                (AreLinked-suc (suc k) m linked) fits in
            (next, round_ends (suc k) m next us params built given populated, end),
      )
