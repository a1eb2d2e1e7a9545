-- ===== src/Router/BatchSwapQuote/Singly.antt =====
-- A batch gives the parameters that the quotes have one by one.
use mathlib.Core.Path.{◌∙◌, sym, ap, fun_ext}
use solana_dex_v.Prelude.{
  ◌≡◌, refl, ℤ, Bool, Bool-cases, Option-cases, invariant_failed, inl, inr, Option, List, [], ◌∷◌,
  map, Result, ok, err, ◌>>=◌, if◌then◌else◌,
}
use solana_dex_v.Types.{PoolData, TickArrayData}
use solana_dex_v.Ticks.TickArraySequence.{or_type_error}
use solana_dex_v.Tokens.TransferFees.{TokenExtensionContext}
use solana_dex_v.Swap.SwapQuote.{SwapQuoteParam}
use solana_dex_v.Swap.SwapUtils.{get_token_type}
use solana_dex_v.Swap.SwapUtils.Batches.{arrays_of, get_batch_tick_arrays-eq}
use solana_dex_v.Swap.TokenQuote.{Pool, is_token, swap_quote_by_token}
use solana_dex_v.Swap.TokenQuote.Defaults.{params_for, swap_quote_by_token-eq}
use solana_dex_v.Router.BatchSwapQuote.{
  SwapQuoteRequest, Prepared, map_result, tick_arrays_for, prepare, quote_param, finish_params,
  batch_build_swap_quote_params,
}

module _ {ℓ κ μ} {A : Type ℓ} {B : Type κ} {C : Type μ} where
  map_result-map :
      (f : A → Result B) (g : B → C) (xs : List A)
      → (map_result f xs >>= λ ys. ok (map g ys)) ≡ map_result (λ x. f x >>= λ y. ok (g y)) xs
  map_result-map f g [] = refl
  map_result-map f g (x ∷ xs) = step (f x) (map_result f xs) (map_result-map f g xs)
    where
      step :
          (first : Result B) (rest : Result (List B))
          → (rest >>= λ ys. ok (map g ys)) ≡ map_result (λ z. f z >>= λ y. ok (g y)) xs
          → ((first >>= λ y. rest >>= λ ys. ok (y ∷ ys)) >>= λ ys. ok (map g ys)) ≡ (
              (first >>= λ y. ok (g y)) >>= λ z.
              map_result (λ z. f z >>= λ y. ok (g y)) xs >>= λ zs. ok (z ∷ zs))
      step (err thrown) rest h = refl
      step (ok y) (err thrown) h = rw (← h) refl
      step (ok y) (ok ys) h = rw (← h) refl

module _ {ℓ κ} {A : Type ℓ} {B : Type κ} where
  map_result-same :
      (f g : A → Result B) (xs : List A) → ((x : A) → f x ≡ g x) → map_result f xs ≡ map_result g xs
  map_result-same f g [] e = refl
  map_result-same f g (x ∷ xs) e = rw (e x, map_result-same f g xs e) refl

module _ {Key Mint : Type 0} (equals : Key → Key → Bool) (find_address : Key → ℤ → Key)
    (fetch : List Key → List (Option TickArrayData)) (pools : Key → Option (PoolData Key))
    (no_extension : TokenExtensionContext Mint) (account : Key → Option TickArrayData)
    (fetches : (keys : List Key) → fetch keys ≡ map account keys) where
  -- The quote by token of one request, on the pool that it names.
  abbrev pub singly : SwapQuoteRequest Key → Result (SwapQuoteParam Key Mint)
  singly r = or_type_error (pools r.whirlpool) >>= λ whirlpool_data.
      swap_quote_by_token equals find_address fetch no_extension
        (record { pool_address = r.whirlpool; pool_data = whirlpool_data }) r.trade_token_mint
        r.token_amount r.amount_specified_is_input

  abbrev with_arrays : Prepared Key → SwapQuoteParam Key Mint
  with_arrays p =
      quote_param equals find_address fetch pools no_extension p
        (arrays_of account find_address (tick_arrays_for p))

  singly-prepare :
      (r : SwapQuoteRequest Key)
      → singly r
        ≡ (prepare equals find_address fetch pools no_extension r >>= λ p. ok (with_arrays p))
  unfolding prepare
  singly-prepare r = elim (Option-cases (pools r.whirlpool)) [
    | inl missing ↦ rw missing refl
    | inr (whirlpool_data, found) ↦
        elim (Bool-cases (is_token (get_token_type equals whirlpool_data r.trade_token_mint))) [
          | inl known ↦ rw (found, by_token (pool_of whirlpool_data), known) refl
          | inr unknown ↦ rw (found, by_token (pool_of whirlpool_data), unknown) refl
        ]
  ]
    where
      pool_of : PoolData Key → Pool Key
      pool_of whirlpool_data = record { pool_address = r.whirlpool; pool_data = whirlpool_data }

      by_token :
          (pool : Pool Key)
          → swap_quote_by_token equals find_address fetch no_extension pool r.trade_token_mint
              r.token_amount r.amount_specified_is_input
            ≡ (if is_token (get_token_type equals pool.pool_data r.trade_token_mint)
                then ok (
                    params_for equals find_address fetch no_extension account fetches pool
                      r.trade_token_mint r.token_amount r.amount_specified_is_input)
                else err invariant_failed)
      by_token pool =
          swap_quote_by_token-eq equals find_address fetch no_extension account fetches pool
            r.trade_token_mint r.token_amount r.amount_specified_is_input

  finish_params-eq :
      (ps : List (Prepared Key))
      → finish_params equals find_address fetch pools no_extension ps
          (map (arrays_of account find_address) (map tick_arrays_for ps))
        ≡ ok (map with_arrays ps)
  unfolding finish_params
  finish_params-eq [] = refl
  finish_params-eq (p ∷ ps) = rw (finish_params-eq ps) refl

  -- Let the fetcher return the data of each address in its order. Then a batch of requests gives
  -- the parameters that quotes by token give for the requests one after another, on the pools that
  -- they name and without token extensions: it fails where the first of these fails, with its error.
  pub batch_build_swap_quote_params-map_result :
      (requests : List (SwapQuoteRequest Key))
      → batch_build_swap_quote_params equals find_address fetch pools no_extension requests
        ≡ map_result singly requests
  unfolding batch_build_swap_quote_params
  batch_build_swap_quote_params-map_result requests =
      ap
        (λ next.
          map_result (prepare equals find_address fetch pools no_extension) requests >>= next)
        (fun_ext (λ ps.
          rw (get_batch_tick_arrays-eq account find_address fetch (map tick_arrays_for ps) fetches)
            (finish_params-eq ps)))
      ∙ map_result-map (prepare equals find_address fetch pools no_extension) with_arrays requests
      ∙ sym (map_result-same _ _ requests singly-prepare)
