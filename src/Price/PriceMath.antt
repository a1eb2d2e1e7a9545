-- ===== src/Price/PriceMath.antt =====
-- sdk/src/utils/public/price-math.ts: between tick indices and square roots of prices, 64 bits of
-- fraction. The functions on `Decimal` are left out. The conversions of bn.js to two's complement
-- and back, and the length in bits, are parameters.
pub mod Sides
use solana_dex_v.Prelude.{
  ℕ, zero, suc, ◌+◌, ◌-◌, ◌*◌, ◌/◌, ◌%◌, ◌^◌, ◌≤◌, ◌<◌, ◌≡◌, ℤ, pos, negsuc, ◌+ℤ◌, ◌-ℤ◌, ◌*ℤ◌,
  leb_ℤ, ltb_ℤ, eq_ℤ, neg_ℤ, Bool, not, ◌&&◌, ◌||◌, List, [], ◌∷◌, Result, ok, err, error, ◌>>=◌,
  ◌>>◌, throw_if, ltb, leb, ◌==◌, if◌then◌else◌,
}
use solana_dex_v.Bn.{shln, shrn, mask}
use solana_dex_v.Types.{max_sqrt_price, min_sqrt_price}
use solana_dex_v.Ticks.TickUtil.{invert_tick}

-- `n.toTwos(w)`, `n.fromTwos(w)` and `n.bitLength()`. A number below the sign bit stands for itself.
pub record BnBits : Type 0 where
  pub to_twos : ℤ → ℕ → ℤ
  pub from_twos : ℤ → ℕ → ℤ
  pub bit_length : ℤ → ℕ
  pub to_twos-pos : (n w : ℕ) → to_twos (pos n) w ≡ pos n
  pub from_twos-pos : (n w : ℕ) → n < 2 ^ w → from_twos (pos n) (suc w) ≡ pos n

-- The bits of a tick above the first, and the factor of each.
abbrev pub positive_factors : List (ℕ × ℕ)
positive_factors =
    ((2, 79236085330515764027303304731)
      ∷ (4, 79244008939048815603706035061)
      ∷ (8, 79259858533276714757314932305)
      ∷ (16, 79291567232598584799939703904)
      ∷ (32, 79355022692464371645785046466)
      ∷ (64, 79482085999252804386437311141)
      ∷ (128, 79736823300114093921829183326)
      ∷ (256, 80248749790819932309965073892)
      ∷ (512, 81282483887344747381513967011)
      ∷ (1024, 83390072131320151908154831281)
      ∷ (2048, 87770609709833776024991924138)
      ∷ (4096, 97234110755111693312479820773)
      ∷ (8192, 119332217159966728226237229890)
      ∷ (16384, 179736315981702064433883588727)
      ∷ (32768, 407748233172238350107850275304)
      ∷ (65536, 2098478828474011932436660412517)
      ∷ (131072, 55581415166113811149459800483533)
      ∷ (262144, 38992368544603139932233054999993551)
      ∷ [])

abbrev pub negative_factors : List (ℕ × ℕ)
negative_factors =
    ((2, 18444899583751176498)
      ∷ (4, 18443055278223354162)
      ∷ (8, 18439367220385604838)
      ∷ (16, 18431993317065449817)
      ∷ (32, 18417254355718160513)
      ∷ (64, 18387811781193591352)
      ∷ (128, 18329067761203520168)
      ∷ (256, 18212142134806087854)
      ∷ (512, 17980523815641551639)
      ∷ (1024, 17526086738831147013)
      ∷ (2048, 16651378430235024244)
      ∷ (4096, 15030750278693429944)
      ∷ (8192, 12247334978882834399)
      ∷ (16384, 8131365268884726200)
      ∷ (32768, 3584323654723342297)
      ∷ (65536, 696457651847595233)
      ∷ (131072, 26294789957452057)
      ∷ (262144, 37481735321082)
      ∷ [])

-- `(tick & bit) != 0`, for a power of two.
abbrev pub has_bit : ℕ → ℕ → Bool
has_bit tick bit = tick / bit % 2 == 1

abbrev pub abs : ℤ → ℕ
abs (pos n) = n
abs (negsuc n) = suc n

module _ (bits : BnBits) where
  unfoldable pub signed_shift_left : ℤ → ℕ → ℕ → Result ℤ
  signed_shift_left n0 shift_by bit_width = do
    shifted ← shln (bits.to_twos n0 bit_width) shift_by
    twos_n0 ← mask shifted (bit_width + 1)
    ok (bits.from_twos twos_n0 bit_width)

  unfoldable pub signed_shift_right : ℤ → ℕ → ℕ → Result ℤ
  signed_shift_right n0 shift_by bit_width = do
    shifted ← shrn (bits.to_twos n0 bit_width) shift_by
    two_n0 ← mask shifted (bit_width - shift_by + 1)
    ok (bits.from_twos two_n0 (bit_width - shift_by))

  -- The chain of `if ((tick & bit) != 0) ratio = signedShiftRight(ratio.mul(factor), shift, 256)`.
  unfoldable pub apply_factors : ℕ → ℕ → List (ℕ × ℕ) → ℤ → Result ℤ
  apply_factors tick shift [] ratio = ok ratio
  apply_factors tick shift (f ∷ fs) ratio = do
    next ← if has_bit tick f.0 then signed_shift_right (ratio *ℤ pos f.1) shift 256 else ok ratio
    apply_factors tick shift fs next

  unfoldable pub tick_index_to_sqrt_price_positive : ℕ → Result ℤ
  tick_index_to_sqrt_price_positive tick = do
    let start =
        if has_bit tick 1
        then pos 79232123823359799118286999567
        else pos 79228162514264337593543950336
    ratio ← apply_factors tick 96 positive_factors start
    signed_shift_right ratio 32 256

  unfoldable pub tick_index_to_sqrt_price_negative : ℕ → Result ℤ
  tick_index_to_sqrt_price_negative tick =
      let start = if has_bit tick 1 then pos 18445821805675392311 else pos 18446744073709551616 in
      apply_factors tick 64 negative_factors start

  unfoldable pub tick_index_to_sqrt_price_x64 : ℤ → Result ℤ
  tick_index_to_sqrt_price_x64 tick_index =
      if ltb_ℤ (pos 0) tick_index
      then tick_index_to_sqrt_price_positive (abs tick_index)
      else tick_index_to_sqrt_price_negative (abs tick_index)

  -- The loop for the fraction of the logarithm: the fuel is the precision that is left.
  unfoldable pub log2p_fraction : ℕ → ℤ → ℤ → ℤ → Result ℤ
  log2p_fraction zero bit r fraction = ok fraction
  log2p_fraction (suc precision) bit r fraction =
      if not (ltb_ℤ (pos 0) bit) then ok fraction else do
        r_more_than_two ← shrn (r *ℤ r) 127
        next_r ← shrn (r *ℤ r) (63 + abs r_more_than_two)
        next_bit ← shrn bit 1
        log2p_fraction precision next_bit next_r (fraction +ℤ bit *ℤ r_more_than_two)

  -- The two candidates for the tick of a price.
  unfoldable pub tick_bounds : ℤ → Result (ℤ × ℤ)
  tick_bounds sqrt_price_x64 = do
    let msb = pos (bits.bit_length sqrt_price_x64) -ℤ pos 1
    log2p_integer_x32 ← signed_shift_left (msb -ℤ pos 64) 32 128
    r ←
        if leb_ℤ (pos 64) msb
        then shrn sqrt_price_x64 (abs (msb -ℤ pos 63))
        else shln sqrt_price_x64 (abs (pos 63 -ℤ msb))
    log2p_fraction_x64 ← log2p_fraction 14 (pos (2 ^ 63)) r (pos 0)
    log2p_fraction_x32 ← shrn log2p_fraction_x64 32
    let logbp_x64 = (log2p_integer_x32 +ℤ log2p_fraction_x32) *ℤ pos 59543866431248
    tick_low ← signed_shift_right (logbp_x64 -ℤ pos 184467440737095516) 64 128
    tick_high ← signed_shift_right (logbp_x64 +ℤ pos 15793534762490258745) 64 128
    ok (tick_low, tick_high)

  unfoldable pub sqrt_price_x64_to_tick_index : ℤ → Result ℤ
  sqrt_price_x64_to_tick_index sqrt_price_x64 = do
    throw_if (ltb_ℤ max_sqrt_price sqrt_price_x64 || ltb_ℤ sqrt_price_x64 min_sqrt_price) error
    ticks ← tick_bounds sqrt_price_x64
    if eq_ℤ ticks.0 ticks.1 then ok ticks.0 else do
      derived ← tick_index_to_sqrt_price_x64 ticks.1
      ok (if leb_ℤ derived sqrt_price_x64 then ticks.1 else ticks.0)

  unfoldable pub invert_sqrt_price_x64 : ℤ → Result ℤ
  invert_sqrt_price_x64 sqrt_price_x64 = do
    tick ← sqrt_price_x64_to_tick_index sqrt_price_x64
    tick_index_to_sqrt_price_x64 (invert_tick tick)
