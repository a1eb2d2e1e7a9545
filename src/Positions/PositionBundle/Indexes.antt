-- ===== src/Positions/PositionBundle/Indexes.antt =====
-- The lists of open and of free indices, against the bits of the bitmap.
use mathlib.Core.List.{Memᴰ}
use mathlib.Core.Path.{subst}
use solana_dex_v.Prelude.{
  ◌≢◌, All, AllPairs, All-imp, ℕ, zero, suc, ◌+◌, ◌*◌, ◌/◌, ◌%◌, ◌^◌, ◌==◌, ==_iff, leb, ltb, ◌<◌,
  ◌≡◌, ◌↔◌, ◌⊎◌, inl, inr, ◌∙◌, refl, sym, ap, Bool, true, false, not, Option, none, some, List, [],
  ◌∷◌, ◌++◌, length, get_elem?, ok, arith, length-append,
}
use solana_dex_v.Positions.PositionBundle.{
  PositionBundleData, check_bundle_index_in_bounds, bits_from, bits_of_bytes,
  convert_bitmap_to_array, is_occupied, is_unoccupied, occupied_from, unoccupied_from,
  get_occupied_bundle_indexes, get_unoccupied_bundle_indexes, is_full, find_unoccupied_bundle_index,
}

length-bits_from : (n o b : ℕ) → length (bits_from n o b) ≡ n
unfolding bits_from
length-bits_from zero o b = refl
length-bits_from (suc n) o b = ap suc (length-bits_from n (suc o) b)

-- The array has eight flags for each byte.
pub length-convert_bitmap_to_array :
    (bytes : List ℕ) → length (bits_of_bytes bytes) ≡ 8 * length bytes
unfolding bits_of_bytes
length-convert_bitmap_to_array [] = refl
length-convert_bitmap_to_array (b ∷ bytes) = omega (
  arith,
  length-append (bits_from 8 0 b) (bits_of_bytes bytes),
  length-bits_from 8 0 b,
  length-convert_bitmap_to_array bytes,
)

-- The two lists have together as many indices as there are flags.
length-indexes :
    (i : ℕ) (flags : List Bool)
    → length (occupied_from i flags) + length (unoccupied_from i flags) ≡ length flags
unfolding occupied_from unoccupied_from
length-indexes i [] = refl
length-indexes i (true ∷ flags) = omega (arith, length-indexes (suc i) flags)
length-indexes i (false ∷ flags) = omega (arith, length-indexes (suc i) flags)

-- All flags are `b`.
abbrev pub AllAre : Bool → List Bool → Type 0
AllAre b flags = (i : ℕ) (c : Bool) → get_elem? flags i ≡ some c → c ≡ b

no_unoccupied :
    (i : ℕ) (flags : List Bool) → length (unoccupied_from i flags) ≡ 0 → AllAre true flags
unfolding unoccupied_from
no_unoccupied i [] h j c e = cc
no_unoccupied i (true ∷ flags) h zero c e = cc
no_unoccupied i (true ∷ flags) h (suc j) c e = no_unoccupied (suc i) flags h j c e
no_unoccupied i (false ∷ flags) h j c e = absurd (omega arith)

unoccupied_none :
    (i : ℕ) (flags : List Bool) → AllAre true flags → length (unoccupied_from i flags) ≡ 0
unfolding unoccupied_from
unoccupied_none i [] h = refl
unoccupied_none i (true ∷ flags) h = unoccupied_none (suc i) flags (λ j. h (suc j))
unoccupied_none i (false ∷ flags) h = let e : false ≡ true = h 0 false refl in cc

-- The first free index: it is free, and every index before it is taken.
abbrev pub IsFirstFree : List Bool → Option ℕ → Type 0
IsFirstFree flags none = AllAre true flags
IsFirstFree flags (some k) =
    (get_elem? flags k ≡ some false) × ((i : ℕ) → i < k → get_elem? flags i ≡ some true)

first_free :
    (i : ℕ) (flags : List Bool)
    → (length (unoccupied_from i flags) ≡ 0) × (get_elem? (unoccupied_from i flags) 0 ≡ none)
      ⊎ ((k : ℕ) × (get_elem? (unoccupied_from i flags) 0 ≡ some (i + k))
          × IsFirstFree flags (some k))
unfolding unoccupied_from
first_free i [] = inl (refl, refl)
first_free i (false ∷ flags) = inr (0, ap some (omega arith), (refl, λ j lt. absurd (omega arith)))
first_free i (true ∷ flags) = elim (first_free (suc i) flags) [
  | inl h ↦ inl h
  | inr (k, e, (at, before)) ↦ inr (suc k, e ∙ ap some (omega arith), (at, taken k before))
]
  where
    taken :
        (k : ℕ)
        → ((j : ℕ) → j < k → get_elem? flags j ≡ some true)
        → (j : ℕ) → j < suc k
        → get_elem? (true ∷ flags) j ≡ some true
    taken k before zero lt = refl
    taken k before (suc j) lt = before j (omega arith)

empty-none : (xs : List ℕ) → length xs ≡ 0 → get_elem? xs 0 ≡ none
empty-none [] h = refl
empty-none (x ∷ xs) h = absurd (omega arith)

-- The free index that is found is free, and every index before it is taken. None is found exactly
-- where all flags are taken, which is where the bundle is full.
pub find_unoccupied_bundle_index-IsFirstFree :
    (bundle : PositionBundleData)
    → IsFirstFree (convert_bitmap_to_array bundle) (find_unoccupied_bundle_index bundle)
      × ((is_full bundle ≡ true) ↔ (find_unoccupied_bundle_index bundle ≡ none))
unfolding find_unoccupied_bundle_index is_full get_unoccupied_bundle_indexes
find_unoccupied_bundle_index-IsFirstFree bundle =
    let flags = convert_bitmap_to_array bundle in
    elim (first_free 0 flags) [
      | inl (empty, e) ↦ rw e (
        no_unoccupied 0 flags empty,
        ((λ h. refl), λ h. (==_iff (length (unoccupied_from 0 flags)) 0).1 empty),
      )
      | inr (k, e, first) ↦
          let e' : get_elem? (unoccupied_from 0 flags) 0 ≡ some k = e ∙ ap some (omega arith) in
          rw e' (
            first,
            (
              λ full.
                  sym e'
                  ∙ empty-none (unoccupied_from 0 flags)
                      ((==_iff (length (unoccupied_from 0 flags)) 0).0 full),
              λ none_found. cc,
            ),
          )
    ]

-- The indices, from `i` on, of the flags that are `b`: in ascending order, each of them, and no other.
abbrev pub Lists : ℕ → Bool → List Bool → List ℕ → Type 0
Lists i b flags ks =
    AllPairs (λ x y. x < y) ks
    × All (λ k. (j : ℕ) × (k ≡ i + j) × (get_elem? flags j ≡ some b)) ks
    × ((j : ℕ) → get_elem? flags j ≡ some b → Memᴰ (i + j) ks)

Lists-skip :
    (i : ℕ) (b c : Bool) (flags : List Bool) (ks : List ℕ)
    → c ≢ b
    → Lists (suc i) b flags ks
    → Lists i b (c ∷ flags) ks
Lists-skip i b c flags ks other (sorted, each, all) =
    (sorted, All-imp _ _ ks (λ k (j, same, at). (suc j, omega (arith, same), at)) each, skipped)
  where
    skipped : (j : ℕ) → get_elem? (c ∷ flags) j ≡ some b → Memᴰ (i + j) ks
    skipped zero at = absurd (other (ground arith))
    skipped (suc j) at =
        let same : suc i + j ≡ i + suc j = omega arith in subst (λ l. Memᴰ l ks) same (all j at)

Lists-take :
    (i : ℕ) (b : Bool) (flags : List Bool) (ks : List ℕ)
    → Lists (suc i) b flags ks
    → Lists i b (b ∷ flags) (i ∷ ks)
Lists-take i b flags ks (sorted, each, all) = (
  (All-imp _ _ ks (λ k (j, same, at). omega (arith, same)) each, sorted),
  (
    (0, omega arith, refl),
    All-imp _ _ ks (λ k (j, same, at). (suc j, omega (arith, same), at)) each,
  ),
  taken,
)
  where
    taken : (j : ℕ) → get_elem? (b ∷ flags) j ≡ some b → Memᴰ (i + j) (i ∷ ks)
    taken zero at = Memᴰ.head (omega arith)
    taken (suc j) at =
        let same : suc i + j ≡ i + suc j = omega arith in
        Memᴰ.tail (subst (λ l. Memᴰ l ks) same (all j at))

occupied_from-Lists : (i : ℕ) (flags : List Bool) → Lists i true flags (occupied_from i flags)
unfolding occupied_from
occupied_from-Lists i [] = (tt, tt, λ j at. cc)
occupied_from-Lists i (true ∷ flags) =
    Lists-take i true flags (occupied_from (suc i) flags) (occupied_from-Lists (suc i) flags)
occupied_from-Lists i (false ∷ flags) =
    Lists-skip i true false flags (occupied_from (suc i) flags) (λ e. cc)
      (occupied_from-Lists (suc i) flags)

unoccupied_from-Lists : (i : ℕ) (flags : List Bool) → Lists i false flags (unoccupied_from i flags)
unfolding unoccupied_from
unoccupied_from-Lists i [] = (tt, tt, λ j at. cc)
unoccupied_from-Lists i (false ∷ flags) =
    Lists-take i false flags (unoccupied_from (suc i) flags) (unoccupied_from-Lists (suc i) flags)
unoccupied_from-Lists i (true ∷ flags) =
    Lists-skip i false true flags (unoccupied_from (suc i) flags) (λ e. cc)
      (unoccupied_from-Lists (suc i) flags)

-- The occupied indices are exactly the indices of the bits that are set, and the unoccupied ones those
-- of the bits that are not, both in ascending order; together they are as many as the bitmap has bits.
pub get_bundle_indexes-Lists :
    (bundle : PositionBundleData)
    → Lists 0 true (convert_bitmap_to_array bundle) (get_occupied_bundle_indexes bundle)
      × Lists 0 false (convert_bitmap_to_array bundle) (get_unoccupied_bundle_indexes bundle)
      × (length (get_occupied_bundle_indexes bundle) + length (get_unoccupied_bundle_indexes bundle)
          ≡ 8 * length bundle.position_bitmap)
unfolding get_occupied_bundle_indexes get_unoccupied_bundle_indexes convert_bitmap_to_array
get_bundle_indexes-Lists bundle =
    let flags = bits_of_bytes bundle.position_bitmap in
    (
      occupied_from-Lists 0 flags,
      unoccupied_from-Lists 0 flags,
      length-indexes 0 flags ∙ length-convert_bitmap_to_array bundle.position_bitmap,
    )

get_elem?-append_left :
    {A : Type 0} (xs ys : List A) (i : ℕ) → i < length xs → get_elem? (xs ++ ys) i ≡ get_elem? xs i
get_elem?-append_left [] ys i h = absurd (omega arith)
get_elem?-append_left (x ∷ xs) ys zero h = refl
get_elem?-append_left (x ∷ xs) ys (suc i) h = get_elem?-append_left xs ys i (omega arith)

get_elem?-append_right :
    {A : Type 0} (xs ys : List A) (n i : ℕ)
    → length xs ≡ n
    → get_elem? (xs ++ ys) (n + i) ≡ get_elem? ys i
get_elem?-append_right [] ys n i h = ap (get_elem? ys) (omega arith)
get_elem?-append_right (x ∷ xs) ys n i h =
    let e : n + i ≡ suc (length xs + i) = omega arith in
    rw e (get_elem?-append_right xs ys (length xs) i refl)

abbrev pub bit : ℕ → ℕ → Bool
bit byte j = not (byte / 2 ^ j % 2 == 0)

get_elem?-bits_from :
    (n o byte j : ℕ) → j < n → get_elem? (bits_from n o byte) j ≡ some (bit byte (o + j))
unfolding bits_from
get_elem?-bits_from zero o byte j h = absurd (omega arith)
get_elem?-bits_from (suc n) o byte zero h =
    let e : o ≡ o + 0 = omega arith in ap (λ (x : ℕ). some (bit byte x)) e
get_elem?-bits_from (suc n) o byte (suc j) h =
    get_elem?-bits_from n (suc o) byte j (omega arith)
    ∙ ap (λ (x : ℕ). some (bit byte x)) (omega arith)

first_byte : (b byte j k : ℕ) → k ≡ j → some b ≡ some byte → some (bit b k) ≡ some (bit byte j)
first_byte b byte j k h e = cc

bits_of_bytes-at :
    (bytes : List ℕ) (i j byte : ℕ)
    → j < 8
    → get_elem? bytes i ≡ some byte
    → get_elem? (bits_of_bytes bytes) (8 * i + j) ≡ some (bit byte j)
unfolding bits_of_bytes
bits_of_bytes-at [] i j byte h e = cc
bits_of_bytes-at (b ∷ bytes) zero j byte h e =
    get_elem?-append_left (bits_from 8 0 b) (bits_of_bytes bytes) (8 * 0 + j)
      (omega (arith, length-bits_from 8 0 b))
    ∙ get_elem?-bits_from 8 0 b (8 * 0 + j) (omega arith)
    ∙ first_byte b byte j (0 + (8 * 0 + j)) (omega arith) e
bits_of_bytes-at (b ∷ bytes) (suc i) j byte h e =
    let here : 8 * suc i + j ≡ 8 + (8 * i + j) = omega arith in
    rw here (
      get_elem?-append_right (bits_from 8 0 b) (bits_of_bytes bytes) 8 (8 * i + j)
        (length-bits_from 8 0 b)
      ∙ bits_of_bytes-at bytes i j byte h e)

-- Bit `j` of byte `i` of the bitmap says whether the position `8 * i + j` is open; the two questions
-- answer oppositely.
pub is_occupied-bit :
    (bundle : PositionBundleData) (i j byte : ℕ)
    → j < 8
    → i < 32
    → get_elem? bundle.position_bitmap i ≡ some byte
    → (is_occupied bundle (8 * i + j) ≡ ok (some (bit byte j)))
      × (is_unoccupied bundle (8 * i + j) ≡ ok (not (bit byte j)))
unfolding is_occupied is_unoccupied check_bundle_index_in_bounds convert_bitmap_to_array
is_occupied-bit bundle i j byte h k e =
    let at = bits_of_bytes-at bundle.position_bitmap i j byte h e in
    let low : leb 0 (8 * i + j) ≡ true = ground arith in
    let high : ltb (8 * i + j) 256 ≡ true = ground arith in
    (rw (low, high, at) refl, rw (low, high, at) refl)
