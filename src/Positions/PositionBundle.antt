-- ===== src/Positions/PositionBundle.antt =====
-- sdk/src/utils/public/position-bundle-util.ts: the bitmap of the positions that are open.
pub mod Indexes
use solana_dex_v.Prelude.{
  ℕ, zero, suc, ◌+◌, ◌/◌, ◌%◌, ◌^◌, ◌==◌, leb, ltb, Bool, true, false, not, ◌&&◌, Option, none,
  some, List, [], ◌∷◌, ◌++◌, length, get_elem?, Result, ok, ◌>>=◌, ◌>>◌, invariant, if◌then◌else◌,
}
use solana_dex_v.Types.{position_bundle_size}

-- The bytes of the bitmap.
pub record PositionBundleData : Type 0 where
  pub position_bitmap : List ℕ

unfoldable pub check_bundle_index_in_bounds : ℕ → Bool
check_bundle_index_in_bounds bundle_index =
    leb 0 bundle_index && ltb bundle_index position_bundle_size

-- The inner loop: `n` more bits of a byte, from `offset` on.
unfoldable pub bits_from : ℕ → ℕ → ℕ → List Bool
bits_from zero offset bitmap = []
bits_from (suc n) offset bitmap =
    not (bitmap / 2 ^ offset % 2 == 0) ∷ bits_from n (suc offset) bitmap

unfoldable pub bits_of_bytes : List ℕ → List Bool
bits_of_bytes [] = []
bits_of_bytes (bitmap ∷ rest) = bits_from 8 0 bitmap ++ bits_of_bytes rest

unfoldable pub convert_bitmap_to_array : PositionBundleData → List Bool
convert_bitmap_to_array position_bundle = bits_of_bytes position_bundle.position_bitmap

-- An index past the array reads undefined, `none`.
unfoldable pub is_occupied : PositionBundleData → ℕ → Result (Option Bool)
is_occupied position_bundle bundle_index = do
  invariant (check_bundle_index_in_bounds bundle_index)
  ok (get_elem? (convert_bitmap_to_array position_bundle) bundle_index)

abbrev pub is_falsy : Option Bool → Bool
is_falsy none = true
is_falsy (some b) = not b

unfoldable pub is_unoccupied : PositionBundleData → ℕ → Result Bool
is_unoccupied position_bundle bundle_index = do
  occupied ← is_occupied position_bundle bundle_index
  ok (is_falsy occupied)

-- The indices of the flags that are set, or that are not; the first flag has the index `index`.
unfoldable pub occupied_from : ℕ → List Bool → List ℕ
occupied_from index [] = []
occupied_from index (true ∷ rest) = index ∷ occupied_from (suc index) rest
occupied_from index (false ∷ rest) = occupied_from (suc index) rest

unfoldable pub unoccupied_from : ℕ → List Bool → List ℕ
unoccupied_from index [] = []
unoccupied_from index (true ∷ rest) = unoccupied_from (suc index) rest
unoccupied_from index (false ∷ rest) = index ∷ unoccupied_from (suc index) rest

unfoldable pub get_occupied_bundle_indexes : PositionBundleData → List ℕ
get_occupied_bundle_indexes position_bundle =
    occupied_from 0 (convert_bitmap_to_array position_bundle)

unfoldable pub get_unoccupied_bundle_indexes : PositionBundleData → List ℕ
get_unoccupied_bundle_indexes position_bundle =
    unoccupied_from 0 (convert_bitmap_to_array position_bundle)

unfoldable pub is_full : PositionBundleData → Bool
is_full position_bundle = length (get_unoccupied_bundle_indexes position_bundle) == 0

unfoldable pub is_empty : PositionBundleData → Bool
is_empty position_bundle = length (get_occupied_bundle_indexes position_bundle) == 0

unfoldable pub find_unoccupied_bundle_index : PositionBundleData → Option ℕ
find_unoccupied_bundle_index position_bundle =
    get_elem? (get_unoccupied_bundle_indexes position_bundle) 0
