-- ===== src/Examples/Owners.antt =====
-- Fees, bundles and amounts of tokens on concrete numbers.
use solana_dex_v.Prelude.{
  ℕ, ◌+◌, ◌-◌, ◌*◌, ◌%◌, ◌^◌, ◌≤◌, ◌<◌, ◌≡◌, ◌↔◌, ◌⊎◌, refl, ℤ, pos, Bool, true, false, not, none,
  some, ◌∷◌, replicate, length, ok, err, error, arith,
}
use solana_dex_v.Examples.Packages.{math_util, spl_token, one_percent}
use solana_dex_v.Tokens.TransferFees.{include_fee, include_part, ceil_div_bn, amount_and_fee}
use solana_dex_v.Tokens.TransferFees.Inverse.{IsGross, include_fee-least}
use solana_dex_v.Quotes.CollectFees.{fee_growth_inside}
use solana_dex_v.Quotes.CollectFees.Growth.{side, fee_growth_inside-Splits}
use solana_dex_v.Positions.PositionBundle.{
  PositionBundleData, unoccupied_from, bits_of_bytes, bits_from, convert_bitmap_to_array,
  is_occupied, is_unoccupied, is_full, find_unoccupied_bundle_index, get_occupied_bundle_indexes,
  get_unoccupied_bundle_indexes,
}
use solana_dex_v.Positions.PositionBundle.Indexes.{
  IsFirstFree, bit, find_unoccupied_bundle_index-IsFirstFree, Lists, get_bundle_indexes-Lists,
  is_occupied-bit,
}
use solana_dex_v.Math.TokenMath
use solana_dex_v.Positions.PositionUtil.{
  adjust_for_slippage, adjust_amount_for_slippage, input, output, get_liquidity_from_token_b,
  get_token_b_from_liquidity,
}
use solana_dex_v.Positions.PositionUtil.Amounts.{
  percentage, adjust_for_slippage-bounds, get_token_b_from_liquidity-back,
}

-- 1000 net costs 1011 gross at one percent; 100000 net meets the cap of 50.
include_fee_test :
    (include_fee one_percent (pos 1000) ≡ ok (amount_and_fee (pos 1011) (pos 11)))
    × (include_fee one_percent (pos 100000) ≡ ok (amount_and_fee (pos 100050) (pos 50)))
unfolding include_fee include_part ceil_div_bn
include_fee_test = (refl, refl)

include_fee-least_example :
    (g : ℕ) × IsGross spl_token one_percent 1000 g
    × ((include_fee one_percent (pos 1000) ≡ ok (amount_and_fee (pos g) (pos (g - 1000))))
        ⊎ ((include_fee one_percent (pos 1000) ≡ err error) × (2 ^ 64 - 1 < g)))
include_fee-least_example = include_fee-least spl_token one_percent 1000 (omega arith)

fee_growth_inside-Splits_example :
    (inside : ℕ) × (fee_growth_inside math_util (pos 5) (pos 0) (pos 8) (pos 100) (pos 30) (pos 90)
      ≡ pos inside)
    × (inside < 2 ^ 128)
    × ((inside + side true 100 30 + side true 100 90) % 2 ^ 128 ≡ 100)
fee_growth_inside-Splits_example =
    fee_growth_inside-Splits math_util (pos 5) (pos 0) (pos 8) 100 30 90 (omega arith) (omega arith)
      (omega arith)

-- The first eight positions are taken, and the tenth.
abbrev bundle : PositionBundleData
bundle = record { position_bitmap = 255 ∷ 2 ∷ replicate 30 0 }

find_unoccupied_test : find_unoccupied_bundle_index bundle ≡ some 8
unfolding find_unoccupied_bundle_index get_unoccupied_bundle_indexes unoccupied_from
    convert_bitmap_to_array bits_of_bytes bits_from
find_unoccupied_test = refl

find_unoccupied_bundle_index-IsFirstFree_example :
    IsFirstFree (convert_bitmap_to_array bundle) (find_unoccupied_bundle_index bundle)
    × ((is_full bundle ≡ true) ↔ (find_unoccupied_bundle_index bundle ≡ none))
find_unoccupied_bundle_index-IsFirstFree_example = find_unoccupied_bundle_index-IsFirstFree bundle

get_bundle_indexes-Lists_example :
    Lists 0 true (convert_bitmap_to_array bundle) (get_occupied_bundle_indexes bundle)
    × Lists 0 false (convert_bitmap_to_array bundle) (get_unoccupied_bundle_indexes bundle)
    × (length (get_occupied_bundle_indexes bundle) + length (get_unoccupied_bundle_indexes bundle)
        ≡ 8 * 32)
get_bundle_indexes-Lists_example = get_bundle_indexes-Lists bundle

is_occupied-bit_example :
    (is_occupied bundle (8 * 1 + 1) ≡ ok (some (bit 2 1)))
    × (is_unoccupied bundle (8 * 1 + 1) ≡ ok (not (bit 2 1)))
is_occupied-bit_example = is_occupied-bit bundle 1 1 2 (omega arith) (omega arith) refl

adjust_for_slippage-bounds_example :
    (up : ℕ) × (down : ℕ) × (adjust_for_slippage (pos 1000) (percentage 1 100) true ≡ ok (pos up))
    × (adjust_for_slippage (pos 1000) (percentage 1 100) false ≡ ok (pos down))
    × (1000 ≤ up)
    × (down ≤ 1000)
    × ((b : Bool)
        → TokenMath.adjust_for_slippage (pos 1000) (percentage 1 100) b
          ≡ adjust_for_slippage (pos 1000) (percentage 1 100) b)
    × ((other : ℤ)
        → (adjust_amount_for_slippage other (pos 1000) (percentage 1 100) input ≡ ok (pos down))
          × (adjust_amount_for_slippage (pos 1000) other (percentage 1 100) output ≡ ok (pos up)))
adjust_for_slippage-bounds_example = adjust_for_slippage-bounds 1000 1 100 (omega arith)

get_token_b_from_liquidity-back_example :
    (l : ℕ) × (t : ℕ) × (get_liquidity_from_token_b math_util (pos 1000) (pos 70) (pos 90) false
      ≡ ok (pos l))
    × (get_token_b_from_liquidity math_util (pos l) (pos 70) (pos 90) false ≡ ok (pos t))
    × (get_token_b_from_liquidity math_util (pos l) (pos 90) (pos 70) false ≡ ok (pos t))
    × (t ≤ 1000)
get_token_b_from_liquidity-back_example =
    get_token_b_from_liquidity-back math_util 1000 70 90 (omega arith)
