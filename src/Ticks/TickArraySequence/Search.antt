-- ===== src/Ticks/TickArraySequence/Search.antt =====
-- The search for the next initialized tick: it walks the grid one point at a time, and it ends.
use native.Mathlib.Nat.{div-add-mod', mul-add-div_right, div-eq_of_lt}
use solana_dex_v.Prelude.{
  ℕ, zero, suc, ◌+◌, ◌-◌, ◌*◌, ◌/◌, ◌%◌, ◌<◌, ◌≡◌, refl, ap, ◌∙◌, ℤ, pos, negsuc, sub_ℕ, ◌+ℤ◌, ◌-ℤ◌,
  ◌*ℤ◌, floor_div, ok, arith,
}
use solana_dex_v.Ticks.TickArrayIndex.{
  TickArrayIndex, from_tick_index, to_tick_index, to_next_initializable_tick_index,
  to_prev_initializable_tick_index,
}
use solana_dex_v.Ticks.TickArrayIndex.RoundTrip.{
  from_tick_index-pos, from_tick_index-negsuc, negative_grid,
}

-- The array and the offset of the grid point number `l`.
abbrev pub grid_index : ℤ → ℕ → TickArrayIndex
grid_index (pos m) ts = record {
  array_index = pos (m / 88);
  offset_index = pos (m % 88);
  tick_spacing = ts;
}
grid_index (negsuc m) ts = record {
  array_index = negsuc (m / 88);
  offset_index = pos (87 - m % 88);
  tick_spacing = ts;
}

rest_div : (ts m r : ℕ) → 0 < ts → r < ts → (m * ts + r) / ts ≡ m
rest_div ts m r h lt = mul-add-div_right h m r ∙ omega (arith, div-eq_of_lt lt)

mul-div_cancel_pos : (ts m : ℕ) → 0 < ts → m * ts / ts ≡ m
mul-div_cancel_pos ts m h =
    let zero_rest : m * ts ≡ m * ts + 0 = omega arith in rw zero_rest (rest_div ts m 0 h h)

sub-negsuc : (a b : ℕ) → a ≡ suc b → sub_ℕ 0 a ≡ negsuc b
sub-negsuc a b e = ground arith

sub-add : (a b c : ℕ) → a ≡ c + b → sub_ℕ 0 a +ℤ pos b ≡ sub_ℕ 0 c
sub-add a b c e = ground arith

sub-sub : (a b c : ℕ) → c ≡ a + b → sub_ℕ 0 a -ℤ pos b ≡ sub_ℕ 0 c
sub-sub a b c e = ground arith

sub-le' : (a b c : ℕ) → a ≡ c + b → sub_ℕ a b ≡ pos c
sub-le' a b c e = ground arith

module _ (ts : ℕ) (h : 0 < ts) where
  pub from_tick_index-grid :
      (tick : ℤ) → from_tick_index tick ts ≡ ok (grid_index (floor_div tick ts) ts)
  from_tick_index-grid (pos a) = from_tick_index-pos a ts h
  from_tick_index-grid (negsuc a) = from_tick_index-negsuc a ts h

  pub to_tick_index-grid : (l : ℤ) → to_tick_index (grid_index l ts) ≡ l *ℤ pos ts
  unfolding to_tick_index
  to_tick_index-grid (pos m) = ap pos (omega (arith, ap (λ (x : ℕ). x * ts) (div-add-mod' m 88)))
  to_tick_index-grid (negsuc m) = negative_grid (m / 88) (m % 88) ts m (omega arith) (omega arith)

  spacing : (l : ℤ) → (grid_index l ts).tick_spacing ≡ ts
  spacing (pos m) = refl
  spacing (negsuc m) = refl

  floor_mul : (l : ℤ) → floor_div (l *ℤ pos ts) ts ≡ l
  floor_mul (pos m) = ap pos (mul-div_cancel_pos ts m h)
  floor_mul (negsuc m) =
      rw (sub-negsuc (suc m * ts) (m * ts + (ts - 1)) (omega arith))
        (ap negsuc (rest_div ts m (ts - 1) h (omega arith)))

  next_mul : (l : ℤ) → l *ℤ pos ts +ℤ pos ts ≡ (l +ℤ pos 1) *ℤ pos ts
  next_mul (pos m) = ap pos (omega arith)
  next_mul (negsuc zero) = ground arith
  next_mul (negsuc (suc m)) =
      let there : sub_ℕ 1 (suc (suc m)) ≡ negsuc m = ground arith in
      rw there (sub-add (suc (suc m) * ts) ts (suc m * ts) (omega arith))

  prev_mul : (l : ℤ) → l *ℤ pos ts -ℤ pos ts ≡ (l -ℤ pos 1) *ℤ pos ts
  prev_mul (pos zero) = ground arith
  prev_mul (pos (suc m)) =
      let there : sub_ℕ (suc m) 1 ≡ pos m = ground arith in
      rw there (sub-le' (suc m * ts) ts (m * ts) (omega arith))
  prev_mul (negsuc m) = sub-sub (suc m * ts) ts (suc (m + 1) * ts) (omega arith)

  pub step_next :
      (l : ℤ) → to_next_initializable_tick_index (grid_index l ts) ≡ ok (grid_index (l +ℤ pos 1) ts)
  unfolding to_next_initializable_tick_index
  step_next l =
      rw (spacing l, to_tick_index-grid l, next_mul l)
        (from_tick_index-grid ((l +ℤ pos 1) *ℤ pos ts)
          ∙ ap (λ (x : ℤ). ok (grid_index x ts)) (floor_mul (l +ℤ pos 1)))

  pub step_prev :
      (l : ℤ) → to_prev_initializable_tick_index (grid_index l ts) ≡ ok (grid_index (l -ℤ pos 1) ts)
  unfolding to_prev_initializable_tick_index
  step_prev l =
      rw (spacing l, to_tick_index-grid l, prev_mul l)
        (from_tick_index-grid ((l -ℤ pos 1) *ℤ pos ts)
          ∙ ap (λ (x : ℤ). ok (grid_index x ts)) (floor_mul (l -ℤ pos 1)))
