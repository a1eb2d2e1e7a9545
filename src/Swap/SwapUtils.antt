-- ===== src/Swap/SwapUtils.antt =====
-- sdk/src/utils/public/swap-utils.ts and the functions of pool-utils.ts that it calls: the direction of
-- a swap, its default limits, and the tick arrays that it may cross.
pub mod Batches
pub mod StartTicks
use solana_dex_v.Prelude.{
  ℕ, zero, suc, ◌+◌, ◌-◌, ℤ, pos, negsuc, ◌+ℤ◌, Bool, true, false, not, Option, none, some, List,
  [], ◌∷◌, ◌++◌, map, length, take, get_elem?, Result, ok, err, if◌then◌else◌,
}
use solana_dex_v.Bn.{u64_max}
use solana_dex_v.Types.{
  PoolData, TickArrayData, max_sqrt_price, min_sqrt_price, max_swap_tick_arrays,
}
use solana_dex_v.Ticks.TickUtil.{get_start_tick_index}
use solana_dex_v.Ticks.TickArraySequence.{TickArray, or_type_error}

pub data TokenType : Type 0 where
  token_a token_b : TokenType

pub data SwapDirection : Type 0 where
  ato_b bto_a : SwapDirection

unfoldable pub get_default_sqrt_price_limit : Bool → ℤ
get_default_sqrt_price_limit a_to_b = if a_to_b then min_sqrt_price else max_sqrt_price

unfoldable pub get_default_other_amount_threshold : Bool → ℤ
get_default_other_amount_threshold amount_specified_is_input =
    if amount_specified_is_input then pos 0 else u64_max

-- `(tokenType === TokenType.TokenA) === swapTokenIsInput`.
abbrev pub direction_of : TokenType → Bool → SwapDirection
direction_of token_a swap_token_is_input = if swap_token_is_input then ato_b else bto_a
direction_of token_b swap_token_is_input = if swap_token_is_input then bto_a else ato_b

abbrev pub swap_direction : Option TokenType → Bool → Option SwapDirection
swap_direction none swap_token_is_input = none
swap_direction (some token_type) swap_token_is_input =
    some (direction_of token_type swap_token_is_input)

-- `direction === SwapDirection.AtoB`.
abbrev pub is_a_to_b : Option SwapDirection → Bool
is_a_to_b none = false
is_a_to_b (some ato_b) = true
is_a_to_b (some bto_a) = false

abbrev pub next_offset : Bool → ℤ → ℤ
next_offset a_to_b offset = if a_to_b then offset +ℤ negsuc 0 else offset +ℤ pos 1

abbrev pub drop {ℓ} : {A : Type ℓ} → ℕ → List A → List A
drop zero xs = xs
drop (suc n) [] = []
drop (suc n) (x ∷ xs) = drop n xs

-- `xs.slice(start, end)`.
abbrev pub slice {ℓ} : {A : Type ℓ} → ℕ → ℕ → List A → List A
slice start end xs = take (end - start) (drop start xs)

-- `equals` compares public keys. `find_address` is AddressUtil.findProgramAddress for the seeds that
-- PDAUtil.getTickArray gives it: a pool and a start tick. `fetch` is the fetcher's getTickArrays.
module _ {Key : Type 0} (equals : Key → Key → Bool) where
  unfoldable pub get_token_type : PoolData Key → Key → Option TokenType
  get_token_type pool mint =
      if equals pool.token_mint_a mint
      then some token_a
      else if equals pool.token_mint_b mint
      then some token_b
      else none

  unfoldable pub get_swap_direction : PoolData Key → Key → Bool → Option SwapDirection
  get_swap_direction pool swap_token_mint swap_token_is_input =
      swap_direction (get_token_type pool swap_token_mint) swap_token_is_input

pub record TickArrayRequest (Key : Type 0) : Type 0 where
  pub whirlpool_address : Key
  pub a_to_b : Bool
  pub tick_current_index : ℤ
  pub tick_spacing : ℕ

module _ {Key : Type 0} (find_address : Key → ℤ → Key) where
  -- The loop, for the rounds that are left; a start tick out of range ends it.
  unfoldable pub keys_from : ℕ → ℤ → ℕ → Bool → Key → ℤ → List Key
  keys_from zero tick_index tick_spacing a_to_b whirlpool_address offset = []
  keys_from (suc rounds) tick_index tick_spacing a_to_b whirlpool_address offset =
      let rest =
        keys_from rounds tick_index tick_spacing a_to_b whirlpool_address
          (next_offset a_to_b offset) in
      elim (get_start_tick_index tick_index tick_spacing offset) [
        | err thrown ↦ []
        | ok start_index ↦ find_address whirlpool_address start_index ∷ rest
      ]

  unfoldable pub get_tick_array_public_keys : TickArrayRequest Key → List Key
  get_tick_array_public_keys request =
      let shift = if request.a_to_b then pos 0 else pos request.tick_spacing in
      keys_from max_swap_tick_arrays (request.tick_current_index +ℤ shift) request.tick_spacing
        request.a_to_b request.whirlpool_address (pos 0)

  -- The loop over the requests: all addresses, and where those of each request stand.
  unfoldable pub collect_addresses :
      List (TickArrayRequest Key) → List Key → List (ℕ × ℕ) → List Key × List (ℕ × ℕ)
  collect_addresses [] addresses request_to_indices = (addresses, request_to_indices)
  collect_addresses (request ∷ requests) addresses request_to_indices =
      let keys = get_tick_array_public_keys request in
      let end = length addresses + length keys in
      collect_addresses requests (addresses ++ keys)
        (request_to_indices ++ (length addresses, end) ∷ [])

-- `addressSlice.map((addr, index) => ({ address: addr, data: dataSlice[index] }))`.
unfoldable pub with_data :
    {Key : Type 0} → List Key → List (Option TickArrayData) → List (TickArray Key)
with_data [] data_slice = []
with_data (addr ∷ addresses) [] =
    record { address = addr; account_data = none } ∷ with_data addresses []
with_data (addr ∷ addresses) (account ∷ data_slice) =
    record { address = addr; account_data = account } ∷ with_data addresses data_slice

module _ {Key : Type 0} (find_address : Key → ℤ → Key)
    (fetch : List Key → List (Option TickArrayData)) where
  unfoldable pub get_batch_tick_arrays : List (TickArrayRequest Key) → List (List (TickArray Key))
  get_batch_tick_arrays tick_array_requests =
      let collected = collect_addresses find_address tick_array_requests [] [] in
      let fetched = fetch collected.0 in
      map
        (λ (indices : ℕ × ℕ).
          with_data (slice indices.0 indices.1 collected.0) (slice indices.0 indices.1 fetched))
        collected.1

  unfoldable pub get_tick_arrays : TickArrayRequest Key → Result (List (TickArray Key))
  get_tick_arrays request = or_type_error (get_elem? (get_batch_tick_arrays (request ∷ [])) 0)
