-- ===== src/Ticks/TickArraySequence.antt =====
-- sdk/src/quotes/swap/tick-array-sequence.ts: the tick arrays that a swap may cross. `Key` is the
-- type of an account's address. The private fields are the record's state; a method that throws
-- leaves no sequence behind, since every caller gives up the quote.
pub mod Search
pub mod Ends
pub mod Touched
use solana_dex_v.Prelude.{
  ℕ, zero, suc, ◌+◌, ◌-◌, ◌*◌, ℤ, pos, negsuc, ◌+ℤ◌, ◌-ℤ◌, leb_ℤ, ltb_ℤ, min_ℤ, max_ℤ, Bool, true,
  false, not, ◌&&◌, Option, none, some, List, [], ◌∷◌, ◌++◌, length, get_elem?, set, replicate,
  Result, ok, err, error, type_error, out_of_fuel, tick_array_index_not_initialized,
  tick_array_sequence_invalid, ◌>>=◌, ◌>>◌, throw_if, if◌then◌else◌,
}
use solana_dex_v.Types.{TickData, TickArrayData, max_tick_index, min_tick_index, tick_array_size}
use solana_dex_v.Ticks.TickUtil.{tick_at}
use solana_dex_v.Ticks.TickArrayIndex.{
  TickArrayIndex, from_tick_index, to_tick_index, to_next_initializable_tick_index,
  to_prev_initializable_tick_index,
}

-- `data` is null where the account does not exist.
pub record TickArray (Key : Type 0) : Type 0 where
  pub address : Key
  pub account_data : Option TickArrayData

pub record InitializedTickArray (Key : Type 0) : Type 0 where
  pub address : Key
  pub account_data : TickArrayData

pub record TickArraySequence (Key : Type 0) : Type 0 where
  pub sequence : List (InitializedTickArray Key)
  pub touched_arrays : List Bool
  pub start_array_index : ℤ
  pub tick_spacing : ℕ
  pub a_to_b : Bool

pub record NextTick : Type 0 where
  pub next_index : ℤ
  pub next_tick_data : Option TickData

-- An element that a method reads without a check.
abbrev pub or_type_error {ℓ} : {A : Type ℓ} → Option A → Result A
or_type_error (some a) = ok a
or_type_error none = err type_error

abbrev pub count_true : List Bool → ℕ
count_true [] = 0
count_true (true ∷ bs) = suc (count_true bs)
count_true (false ∷ bs) = count_true bs

module _ {Key : Type 0} where
  abbrev pub initialized_array : Key → TickArrayData → InitializedTickArray Key
  initialized_array address account_data = record { address = address; account_data = account_data }

  -- The loop of the constructor: the arrays before the first uninitialized one.
  unfoldable pub initialized_prefix : List (TickArray Key) → List (InitializedTickArray Key)
  initialized_prefix [] = []
  initialized_prefix (tick_array ∷ tick_arrays) = elim tick_array.account_data [
    | none ↦ []
    | some account_data ↦
        initialized_array tick_array.address account_data ∷ initialized_prefix tick_arrays
  ]

  -- The constructor. An empty prefix is an uninitialized array 0.
  unfoldable pub new_from :
      List (InitializedTickArray Key) → ℕ → Bool → Result (TickArraySequence Key)
  new_from [] tick_spacing a_to_b = err error
  new_from (first ∷ sequence) tick_spacing a_to_b = do
    start ← from_tick_index first.account_data.start_tick_index tick_spacing
    ok (record {
      sequence = first ∷ sequence;
      touched_arrays = replicate (suc (length sequence)) false;
      start_array_index = start.array_index;
      tick_spacing = tick_spacing;
      a_to_b = a_to_b;
    })

  unfoldable pub new : List (TickArray Key) → ℕ → Bool → Result (TickArraySequence Key)
  new tick_arrays tick_spacing a_to_b =
      new_from (initialized_prefix tick_arrays) tick_spacing a_to_b

  unfoldable pub check_if_index_is_in_tick_array_range : TickArraySequence Key → ℤ → ℤ → Bool
  check_if_index_is_in_tick_array_range s start_tick tick_index =
      let upper_bound = start_tick +ℤ pos (s.tick_spacing * tick_array_size) in
      leb_ℤ start_tick tick_index && ltb_ℤ tick_index upper_bound

  unfoldable pub is_valid_tick_array0 : TickArraySequence Key → ℤ → Result Bool
  is_valid_tick_array0 s tick_current_index = do
    let shift = if s.a_to_b then pos 0 else pos s.tick_spacing
    first ← or_type_error (get_elem? s.sequence 0)
    ok (
        check_if_index_is_in_tick_array_range s first.account_data.start_tick_index
          (tick_current_index +ℤ shift))

  unfoldable pub get_num_of_touched_arrays : TickArraySequence Key → ℕ
  get_num_of_touched_arrays s = count_true s.touched_arrays

  unfoldable pub touched_addresses : List (InitializedTickArray Key) → List Bool → List Key
  touched_addresses [] touched = []
  touched_addresses (a ∷ sequence) [] = []
  touched_addresses (a ∷ sequence) (true ∷ touched) = a.address ∷ touched_addresses sequence touched
  touched_addresses (a ∷ sequence) (false ∷ touched) = touched_addresses sequence touched

  abbrev pub last_or : Key → List Key → Key
  last_or k [] = k
  last_or k (x ∷ xs) = last_or x xs

  -- The padding with the last touched array; an empty list stays empty.
  unfoldable pub pad_with_last : ℕ → List Key → List Key
  pad_with_last min_array_size [] = []
  pad_with_last min_array_size (x ∷ xs) =
      let result = x ∷ xs in
      let size_diff = min_array_size - length result in result ++ replicate size_diff (last_or x xs)

  unfoldable pub get_touched_arrays : TickArraySequence Key → ℕ → List Key
  get_touched_arrays s min_array_size =
      pad_with_last min_array_size (touched_addresses s.sequence s.touched_arrays)

  unfoldable pub get_local_array_index : TickArraySequence Key → ℤ → ℤ
  get_local_array_index s array_index =
      if s.a_to_b then s.start_array_index -ℤ array_index else array_index -ℤ s.start_array_index

  unfoldable pub is_array_index_in_bounds : TickArraySequence Key → TickArrayIndex → Bool
  is_array_index_in_bounds s index =
      let local_array_index = get_local_array_index s index.array_index in
      leb_ℤ (pos 0) local_array_index && ltb_ℤ local_array_index (pos (length s.sequence))

  abbrev pub array_at : TickArraySequence Key → ℤ → Option (InitializedTickArray Key)
  array_at s (pos i) = get_elem? s.sequence i
  array_at s (negsuc i) = none

  abbrev pub touch : TickArraySequence Key → ℤ → TickArraySequence Key
  touch s (pos i) = record {
    sequence = s.sequence;
    touched_arrays = set s.touched_arrays i true;
    start_array_index = s.start_array_index;
    tick_spacing = s.tick_spacing;
    a_to_b = s.a_to_b;
  }
  touch s (negsuc i) = s

  -- The tick is undefined where the account's list of ticks is too short. An array of the sequence has
  -- its data, as the constructor keeps no other, so the test of missing data is not written.
  unfoldable pub get_tick :
      TickArraySequence Key → ℤ → Result (Option TickData × TickArraySequence Key)
  get_tick s index = do
    target_ta_index ← from_tick_index index s.tick_spacing
    throw_if (not (is_array_index_in_bounds s target_ta_index)) error
    let local_array_index = get_local_array_index s target_ta_index.array_index
    tick_array ← or_type_error (array_at s local_array_index)
    throw_if
        (not
          (check_if_index_is_in_tick_array_range s tick_array.account_data.start_tick_index index))
        tick_array_sequence_invalid
    ok (
      tick_at tick_array.account_data.ticks target_ta_index.offset_index,
      touch s local_array_index,
    )

  abbrev pub step_index : TickArraySequence Key → TickArrayIndex → Result TickArrayIndex
  step_index s i =
      if s.a_to_b then to_prev_initializable_tick_index i else to_next_initializable_tick_index i

  abbrev pub last_index_in_array : TickArraySequence Key → TickArrayIndex → ℤ
  last_index_in_array s i =
      max_ℤ
        (min_ℤ
          (if s.a_to_b then to_tick_index i +ℤ pos s.tick_spacing else to_tick_index i -ℤ pos 1)
          max_tick_index)
        min_tick_index

  -- The loop of the search, on fuel.
  unfoldable pub search_from :
      ℕ → TickArraySequence Key → TickArrayIndex → Result (NextTick × TickArraySequence Key)
  search_from zero s i = err out_of_fuel
  search_from (suc fuel) s i = elim (is_array_index_in_bounds s i) [
    | false ↦ ok (record { next_index = last_index_in_array s i; next_tick_data = none }, s)
    | true ↦ do
      r ← get_tick s (to_tick_index i)
      tick ← or_type_error r.0
      elim tick.initialized [
        | true ↦ ok (record { next_index = to_tick_index i; next_tick_data = some tick }, r.1)
        | false ↦ step_index s i >>= search_from fuel r.1
      ]
  ]

  -- A step moves by one grid point, so there is at most one for each tick of the arrays.
  abbrev pub search_fuel : TickArraySequence Key → ℕ
  search_fuel s = suc (tick_array_size * length s.sequence)

  unfoldable pub find_next_initialized_tick_index :
      TickArraySequence Key → ℤ → Result (NextTick × TickArraySequence Key)
  find_next_initialized_tick_index s curr_index = do
    let search_index = if s.a_to_b then curr_index else curr_index +ℤ pos s.tick_spacing
    curr_ta_index ← from_tick_index search_index s.tick_spacing
    throw_if (not (is_array_index_in_bounds s curr_ta_index)) tick_array_sequence_invalid
    search_from (search_fuel s) s curr_ta_index
