-- ===== src/Swap/TokenQuote/Defaults.antt =====
-- What a quote by token asks the swap for.
use mathlib.Core.Path.{◌∙◌, sym, ap}
use mathlib.Core.Bool.{true≢false}
use solana_dex_v.Prelude.{
  ◌+ℤ◌, ◌-◌, ◌^◌, pos, ◌≡◌, ◌≢◌, ◌⊎◌, inl, inr, refl, ℤ, ◌≤ℤ◌, Bool, true, false, not, Bool-cases,
  Option, some, List, map, ok, err, invariant_failed, arith, if◌then◌else◌,
}
use solana_dex_v.Types.{PoolData, TickArrayData, max_sqrt_price, min_sqrt_price}
use solana_dex_v.Tokens.TransferFees.{TokenExtensionContext}
use solana_dex_v.Swap.SwapQuote.{SwapQuoteParam}
use solana_dex_v.Swap.SwapUtils.{
  token_a, token_b, swap_direction, is_a_to_b, get_token_type, get_swap_direction,
  get_default_sqrt_price_limit, get_default_other_amount_threshold,
}
use solana_dex_v.Swap.SwapUtils.StartTicks.{IsRow, get_tick_array_public_keys-IsRow}
use solana_dex_v.Swap.SwapUtils.Batches.{array_at, arrays_of, get_tick_arrays-eq}
use solana_dex_v.Swap.TokenQuote.{Pool, is_token, direction_for, request_for, swap_quote_by_token}

module _ {Key Mint : Type 0} (equals : Key → Key → Bool) (find_address : Key → ℤ → Key)
    (fetch : List Key → List (Option TickArrayData)) (ctx : TokenExtensionContext Mint)
    (account : Key → Option TickArrayData)
    (fetches : (keys : List Key) → fetch keys ≡ map account keys) where
  -- The parameters of the quote.
  abbrev pub params_for : Pool Key → Key → ℤ → Bool → SwapQuoteParam Key Mint
  params_for pool mint amount is_input =
      let a_to_b = direction_for equals pool.pool_data mint is_input in
      record {
        whirlpool_data = pool.pool_data;
        token_amount = amount;
        other_amount_threshold = get_default_other_amount_threshold is_input;
        sqrt_price_limit = get_default_sqrt_price_limit a_to_b;
        a_to_b = a_to_b;
        amount_specified_is_input = is_input;
        tick_arrays = arrays_of account find_address (request_for pool a_to_b);
        token_extension_ctx = ctx;
      }

  pub swap_quote_by_token-eq :
      (pool : Pool Key) (mint : Key) (amount : ℤ) (is_input : Bool)
      → swap_quote_by_token equals find_address fetch ctx pool mint amount is_input ≡ (
          if is_token (get_token_type equals pool.pool_data mint)
          then ok (params_for pool mint amount is_input)
          else err invariant_failed)
  unfolding swap_quote_by_token
  swap_quote_by_token-eq pool mint amount is_input =
      elim (Bool-cases (is_token (get_token_type equals pool.pool_data mint))) [
        | inl known ↦ rw (known, get_tick_arrays-eq account find_address fetch _ fetches) refl
        | inr unknown ↦ rw unknown refl
      ]

  -- The price limit is in bounds and on the side of the price that the swap moves it to.
  abbrev pub IsLimit : SwapQuoteParam Key Mint → Type 0
  IsLimit p =
      (min_sqrt_price ≤ℤ p.sqrt_price_limit)
      × (p.sqrt_price_limit ≤ℤ max_sqrt_price)
      × ((if p.a_to_b then p.sqrt_price_limit else p.whirlpool_data.sqrt_price)
          ≤ℤ (if p.a_to_b then p.whirlpool_data.sqrt_price else p.sqrt_price_limit))

  abbrev pub swapped_mint : SwapQuoteParam Key Mint → Key
  swapped_mint p =
      if p.amount_specified_is_input
      then if p.a_to_b then p.whirlpool_data.token_mint_a else p.whirlpool_data.token_mint_b
      else if p.a_to_b
      then p.whirlpool_data.token_mint_b
      else p.whirlpool_data.token_mint_a

  params_for-IsLimit :
      (pool : Pool Key) (mint : Key) (amount : ℤ) (is_input : Bool)
      → min_sqrt_price ≤ℤ pool.pool_data.sqrt_price
      → pool.pool_data.sqrt_price ≤ℤ max_sqrt_price
      → IsLimit (params_for pool mint amount is_input)
  unfolding get_default_sqrt_price_limit
  params_for-IsLimit pool mint amount is_input low high =
      elim (Bool-cases (direction_for equals pool.pool_data mint is_input)) [
        | inl down ↦ rw down (omega arith, omega arith, low)
        | inr up ↦ rw up (omega arith, omega arith, high)
      ]

  type_a :
      (pool : PoolData Key) (mint : Key)
      → equals pool.token_mint_a mint ≡ true
      → get_token_type equals pool mint ≡ some token_a
  unfolding get_token_type
  type_a pool mint is_a = rw is_a refl

  type_b :
      (pool : PoolData Key) (mint : Key)
      → equals pool.token_mint_a mint ≡ false
      → equals pool.token_mint_b mint ≡ true
      → get_token_type equals pool mint ≡ some token_b
  unfolding get_token_type
  type_b pool mint not_a is_b = rw (not_a, is_b) refl

  direction_token_a : (b : Bool) → is_a_to_b (swap_direction (some token_a) b) ≡ b
  direction_token_a true = refl
  direction_token_a false = refl

  direction_token_b : (b : Bool) → is_a_to_b (swap_direction (some token_b) b) ≡ not b
  direction_token_b true = refl
  direction_token_b false = refl

  direction_a :
      (pool : PoolData Key) (mint : Key) (is_input : Bool)
      → equals pool.token_mint_a mint ≡ true
      → direction_for equals pool mint is_input ≡ is_input
  unfolding get_swap_direction
  direction_a pool mint is_input is_a =
      ap (λ t. is_a_to_b (swap_direction t is_input)) (type_a pool mint is_a)
      ∙ direction_token_a is_input

  direction_b :
      (pool : PoolData Key) (mint : Key) (is_input : Bool)
      → equals pool.token_mint_a mint ≡ false
      → equals pool.token_mint_b mint ≡ true
      → direction_for equals pool mint is_input ≡ not is_input
  unfolding get_swap_direction
  direction_b pool mint is_input not_a is_b =
      ap (λ t. is_a_to_b (swap_direction t is_input)) (type_b pool mint not_a is_b)
      ∙ direction_token_b is_input

  swapped_mint_a :
      (pool : Pool Key) (mint : Key) (amount : ℤ) (is_input : Bool)
      → equals pool.pool_data.token_mint_a mint ≡ true
      → swapped_mint (params_for pool mint amount is_input) ≡ pool.pool_data.token_mint_a
  swapped_mint_a pool mint amount true is_a = rw (direction_a pool.pool_data mint true is_a) refl
  swapped_mint_a pool mint amount false is_a = rw (direction_a pool.pool_data mint false is_a) refl

  swapped_mint_b :
      (pool : Pool Key) (mint : Key) (amount : ℤ) (is_input : Bool)
      → equals pool.pool_data.token_mint_a mint ≡ false
      → equals pool.pool_data.token_mint_b mint ≡ true
      → swapped_mint (params_for pool mint amount is_input) ≡ pool.pool_data.token_mint_b
  swapped_mint_b pool mint amount true not_a is_b =
      rw (direction_b pool.pool_data mint true not_a is_b) refl
  swapped_mint_b pool mint amount false not_a is_b =
      rw (direction_b pool.pool_data mint false not_a is_b) refl

  params_for-swapped_mint :
      (pool : Pool Key) (mint : Key) (amount : ℤ) (is_input : Bool)
      → ((a b : Key) → equals a b ≡ true → a ≡ b)
      → is_token (get_token_type equals pool.pool_data mint) ≡ true
      → swapped_mint (params_for pool mint amount is_input) ≡ mint
  unfolding get_token_type
  params_for-swapped_mint pool mint amount is_input sound known =
      elim (Bool-cases (equals pool.pool_data.token_mint_a mint)) [
        | inl is_a ↦
            swapped_mint_a pool mint amount is_input is_a
            ∙ sound pool.pool_data.token_mint_a mint is_a
        | inr other ↦ elim (Bool-cases (equals pool.pool_data.token_mint_b mint)) [
          | inl is_b ↦
              swapped_mint_b pool mint amount is_input other is_b
              ∙ sound pool.pool_data.token_mint_b mint is_b
          | inr neither ↦ absurd (true≢false (sym known ∙ rw (other, neither) refl))
        ]
      ]

  is_token_of :
      (pool : PoolData Key) (mint : Key)
      → ((a : Key) → equals a a ≡ true)
      → (pool.token_mint_a ≡ mint) ⊎ (pool.token_mint_b ≡ mint)
      → is_token (get_token_type equals pool mint) ≡ true
  unfolding get_token_type
  is_token_of pool mint reflexive (inl is_a) =
      let e : equals pool.token_mint_a mint ≡ true = rw is_a (reflexive mint) in rw e refl
  is_token_of pool mint reflexive (inr is_b) =
      let e : equals pool.token_mint_b mint ≡ true = rw is_b (reflexive mint) in
      elim (Bool-cases (equals pool.token_mint_a mint)) [
        | inl is_a ↦ rw is_a refl
        | inr other ↦ rw (other, e) refl
      ]

  not_token_of :
      (pool : PoolData Key) (mint : Key)
      → ((a b : Key) → equals a b ≡ true → a ≡ b)
      → pool.token_mint_a ≢ mint
      → pool.token_mint_b ≢ mint
      → is_token (get_token_type equals pool mint) ≡ false
  unfolding get_token_type
  not_token_of pool mint sound not_a not_b = elim (Bool-cases (equals pool.token_mint_a mint)) [
    | inl is_a ↦ absurd (not_a (sound pool.token_mint_a mint is_a))
    | inr other ↦ elim (Bool-cases (equals pool.token_mint_b mint)) [
      | inl is_b ↦ absurd (not_b (sound pool.token_mint_b mint is_b))
      | inr neither ↦ rw (other, neither) refl
    ]
  ]

  -- The arrays in a row from the pool's tick on in the direction of the swap, each at its address and
  -- with the data of that address.
  abbrev pub HasArrays : Pool Key → SwapQuoteParam Key Mint → Type 0
  HasArrays pool p =
      (starts : List ℤ) × IsRow
        (if p.a_to_b
          then pool.pool_data.tick_current_index
          else pool.pool_data.tick_current_index +ℤ pos pool.pool_data.tick_spacing)
        pool.pool_data.tick_spacing p.a_to_b 3 0 starts
      × (p.tick_arrays ≡ map (array_at account) (map (find_address pool.pool_address) starts))

  params_for-HasArrays :
      (pool : Pool Key) (mint : Key) (amount : ℤ) (is_input : Bool)
      → HasArrays pool (params_for pool mint amount is_input)
  params_for-HasArrays pool mint amount is_input =
      let (starts, row, same) =
        get_tick_array_public_keys-IsRow find_address
          (request_for pool (direction_for equals pool.pool_data mint is_input)) in
      (starts, row, ap (map (array_at account)) same)

  threshold_for :
      (is_input : Bool)
      → get_default_other_amount_threshold is_input ≡ (if is_input then pos 0 else pos (2 ^ 64 - 1))
  unfolding get_default_other_amount_threshold
  threshold_for is_input = refl

  -- The call makes parameters for this swap.
  abbrev pub Prepares : Pool Key → Key → ℤ → Bool → Type 0
  Prepares pool mint amount is_input =
      (p : SwapQuoteParam Key Mint) × (swap_quote_by_token equals find_address fetch ctx pool mint
          amount is_input
        ≡ ok p)
      × (p.token_amount ≡ amount)
      × (p.amount_specified_is_input ≡ is_input)
      × (swapped_mint p ≡ mint)
      × (p.whirlpool_data ≡ pool.pool_data)
      × (p.other_amount_threshold ≡ (if is_input then pos 0 else pos (2 ^ 64 - 1)))
      × HasArrays pool p
      × IsLimit p

  -- Let the equality of keys be decided by `equals`, and let the fetcher return the data of each
  -- address in its order. If the mint is one of the pool's and the pool's price is in bounds, then the
  -- parameters of the quote are made: they swap the mint as input or as output, as asked; they have
  -- the amount, the pool's data, and a threshold that accepts every amount of 64 bits; and the price
  -- limit is in bounds and on the right side of the price. Their tick arrays are the one that holds
  -- the pool's tick (or, to the right, the tick one spacing further) and the two next to it in the
  -- direction of the swap, up to the first that starts outside the ticks, each with the data of its
  -- own address. For any other mint the call fails.
  pub swap_quote_by_token-Prepares :
      ((a b : Key) → equals a b ≡ true → a ≡ b)
      → ((a : Key) → equals a a ≡ true)
      → (pool : Pool Key) (mint : Key) (amount : ℤ) (is_input : Bool)
      → min_sqrt_price ≤ℤ pool.pool_data.sqrt_price
      → pool.pool_data.sqrt_price ≤ℤ max_sqrt_price
      → ((pool.pool_data.token_mint_a ≡ mint) ⊎ (pool.pool_data.token_mint_b ≡ mint)
          → Prepares pool mint amount is_input)
        × (pool.pool_data.token_mint_a ≢ mint
            → pool.pool_data.token_mint_b ≢ mint
            → swap_quote_by_token equals find_address fetch ctx pool mint amount is_input
              ≡ err invariant_failed)
  swap_quote_by_token-Prepares sound reflexive pool mint amount is_input low high = (
    λ one.
        let is_one = is_token_of pool.pool_data mint reflexive one in
        (
          params_for pool mint amount is_input,
          swap_quote_by_token-eq pool mint amount is_input ∙ rw is_one refl,
          refl,
          refl,
          params_for-swapped_mint pool mint amount is_input sound is_one,
          refl,
          threshold_for is_input,
          params_for-HasArrays pool mint amount is_input,
          params_for-IsLimit pool mint amount is_input low high,
        ),
    λ not_a not_b.
        swap_quote_by_token-eq pool mint amount is_input
        ∙ rw (not_token_of pool.pool_data mint sound not_a not_b) refl,
  )
