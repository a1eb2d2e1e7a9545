-- ===== src/Ticks/TickArrayIndex/RoundTrip.antt =====
-- Splitting a tick into array and offset loses only what lies between two points of the grid.
use native.Mathlib.Nat.{
  div-add-mod', mod-lt, mul-add-mod_self_right, mod-eq_of_lt, mul-add-div_right, div-eq_of_lt,
  suc-mod, mod_self, mul-le-mul_right,
}
use native.Mathlib.Decide.{dec_lt}
use solana_dex_v.Prelude.{
  ℕ, suc, ◌+◌, ◌-◌, ◌*◌, ◌/◌, ◌%◌, ◌<◌, ◌≡◌, ap, refl, ◌∙◌, ◌⊎◌, inl, inr, ℤ, pos, negsuc, sub_ℕ,
  ◌+ℤ◌, ◌*ℤ◌, floor_div, rem, ok, arith,
}
use solana_dex_v.Ticks.TickArrayIndex.{TickArrayIndex, new, from_tick_index, to_tick_index}

rest_fits : (r y ts : ℕ) → r < 88 → y < ts → r * ts + y < ts * 88
rest_fits r y ts h k = grind arith

whole_index : (a ts : ℕ) → (a / ts / 88) * (ts * 88) + (a / ts % 88 * ts + a % ts) ≡ a
whole_index a ts =
    omega (arith, ap (λ (x : ℕ). x * ts) (div-add-mod' (a / ts) 88), div-add-mod' a ts)

mod_of_split : (q r m a : ℕ) → q * m + r ≡ a → r < m → a % m ≡ r
mod_of_split q r m a e h = rw (← e) (mul-add-mod_self_right q m r ∙ mod-eq_of_lt h)

offset-mod : (a ts : ℕ) → 0 < ts → a % (ts * 88) / ts ≡ a / ts % 88
offset-mod a ts h =
    rw
      (mod_of_split (a / ts / 88) (a / ts % 88 * ts + a % ts) (ts * 88) a (whole_index a ts)
        (rest_fits (a / ts % 88) (a % ts) ts (omega arith) (mod-lt a h)))
      (mul-add-div_right h (a / ts % 88) (a % ts) ∙ omega (arith, div-eq_of_lt (mod-lt a h)))

-- The parts of a tick that is not negative, and of a negative tick.
abbrev pub split_pos : ℕ → ℕ → TickArrayIndex
split_pos a ts = record {
  array_index = pos (a / ts / 88);
  offset_index = pos (a / ts % 88);
  tick_spacing = ts;
}

abbrev pub split_negsuc : ℕ → ℕ → TickArrayIndex
split_negsuc a ts = record {
  array_index = negsuc (a / ts / 88);
  offset_index = pos (87 - a / ts % 88);
  tick_spacing = ts;
}

pub from_tick_index-pos : (a ts : ℕ) → 0 < ts → from_tick_index (pos a) ts ≡ ok (split_pos a ts)
unfolding from_tick_index new
from_tick_index-pos a ts h = ground (arith, offset-mod a ts h)

-- One more than a number wraps to zero, or goes on.
suc-mod_cases : (a m : ℕ) → 0 < m → (suc a % m ≡ 0) × (a % m ≡ m - 1) ⊎ (suc a % m ≡ suc (a % m))
suc-mod_cases a m h = elim (dec_lt (suc (a % m)) m) [
  | yes below ↦ inr (suc-mod a m ∙ mod-eq_of_lt below)
  | no full ↦
      let e : suc (a % m) ≡ m = omega (arith, mod-lt a h) in
      inl (suc-mod a m ∙ ap (λ (x : ℕ). x % m) e ∙ mod_self m, omega arith)
]

last_offset : (r y ts : ℕ) → r < 88 → y < ts → r * ts + y ≡ ts * 88 - 1 → r ≡ 87
last_offset r y ts h k e = elim (dec_lt r 87) [
  | yes below ↦ absurd (omega (arith, mul-le-mul_right {m = r} {n = 86} ts (omega arith)))
  | no above ↦ omega arith
]

rem_cases :
    (a ts : ℕ)
    → 0 < ts
    → (rem (negsuc a) (ts * 88) ≡ pos 0) × (a / ts % 88 ≡ 87)
      ⊎ (rem (negsuc a) (ts * 88) ≡ negsuc (a % (ts * 88)))
rem_cases a ts h = elim (suc-mod_cases a (ts * 88) (omega arith)) [
  | inl wraps ↦
      let parts : a % (ts * 88) ≡ a / ts % 88 * ts + a % ts =
        mod_of_split (a / ts / 88) (a / ts % 88 * ts + a % ts) (ts * 88) a (whole_index a ts)
          (rest_fits (a / ts % 88) (a % ts) ts (omega arith) (mod-lt a h)) in
      inl (
        ground arith,
        last_offset (a / ts % 88) (a % ts) ts (omega arith) (mod-lt a h) (omega arith),
      )
  | inr goes_on ↦ inr (ground arith)
]

pub from_tick_index-negsuc :
    (a ts : ℕ) → 0 < ts → from_tick_index (negsuc a) ts ≡ ok (split_negsuc a ts)
unfolding from_tick_index new
from_tick_index-negsuc a ts h = elim (rem_cases a ts h) [
  | inl start ↦ rw start.0 (ground (arith, start.1))
  | inr inside ↦ rw inside (ground (arith, offset-mod a ts h))
]

sub_all : (a b c : ℕ) → a ≡ c + b → sub_ℕ 0 a +ℤ pos b ≡ sub_ℕ 0 c
sub_all a b c e = ground arith

pub negative_grid :
    (q r ts x : ℕ)
    → q * 88 + r ≡ x
    → r < 88
    → negsuc q *ℤ pos 88 *ℤ pos ts +ℤ pos (87 - r) *ℤ pos ts ≡ negsuc x *ℤ pos ts
negative_grid q r ts x e h =
    let start : sub_ℕ 0 (suc q * 88) ≡ negsuc (q * 88 + 87) = ground arith in
    let sum : suc (q * 88 + 87) ≡ suc x + (87 - r) = omega arith in
    rw start (
      sub_all (suc (q * 88 + 87) * ts) ((87 - r) * ts) (suc x * ts)
        (omega (arith, ap (λ (k : ℕ). k * ts) sum)))

abbrev pub IsSplit : ℤ → ℕ → TickArrayIndex → Type 0
IsSplit tick ts i =
    (from_tick_index tick ts ≡ ok i)
    × (to_tick_index i ≡ floor_div tick ts *ℤ pos ts)
    × (i.array_index ≡ floor_div (floor_div tick ts) 88)
    × ((o : ℕ) × (i.offset_index ≡ pos o) × (o < 88))

-- For a positive tick spacing every tick, of either sign, is split into an array index (rounded
-- down) and an offset of 0 to 87, and going back gives the grid point at or below the tick.
pub from_tick_index-to_tick_index :
    (tick : ℤ) (ts : ℕ) → 0 < ts → (i : TickArrayIndex) × IsSplit tick ts i
unfolding to_tick_index
from_tick_index-to_tick_index (pos a) ts h = (
  split_pos a ts,
  (
    from_tick_index-pos a ts h,
    ap pos (omega (arith, ap (λ (x : ℕ). x * ts) (div-add-mod' (a / ts) 88))),
    refl,
    (a / ts % 88, refl, omega arith),
  ),
)
from_tick_index-to_tick_index (negsuc a) ts h = (
  split_negsuc a ts,
  (
    from_tick_index-negsuc a ts h,
    negative_grid (a / ts / 88) (a / ts % 88) ts (a / ts) (omega arith) (omega arith),
    refl,
    (87 - a / ts % 88, refl, omega arith),
  ),
)
