-- ===== src/Prelude/TextMaps.antt =====
-- `Record<string, V>` as a list of entries.
use mathlib.Core.Path.{◌≡◌, refl}
use mathlib.Core.List.{List, [], ◌∷◌}
use mathlib.Core.Option.{Option, none, some}
use native.Mathlib.Omega.{arith}
use solana_dex_v.Prelude.Tests.{if◌then◌else◌}
use solana_dex_v.Prelude.Texts.{Text, text_eq, text_eq_iff}

abbrev pub TextMap {ℓ} : Type ℓ → Type ℓ
TextMap V = List (Text × V)

module _ {ℓ} {V : Type ℓ} where
  -- `record[key]`.
  unfoldable pub get_key : TextMap V → Text → Option V
  get_key [] key = none
  get_key ((k, v) ∷ m) key = if text_eq k key then some v else get_key m key

  -- `record[key] = value`.
  unfoldable pub put_key : TextMap V → Text → V → TextMap V
  put_key [] key value = (key, value) ∷ []
  put_key ((k, v) ∷ m) key value =
      if text_eq k key then (k, value) ∷ m else (k, v) ∷ put_key m key value

  pub get_key-put_key :
      (m : TextMap V) (key j : Text) (value : V)
      → get_key (put_key m key value) j ≡ (if text_eq key j then some value else get_key m j)
  unfolding get_key put_key
  get_key-put_key [] key j value = refl
  get_key-put_key ((k, v) ∷ m) key j value =
      ground (
        arith,
        text_eq_iff k key,
        text_eq_iff k j,
        text_eq_iff key j,
        get_key-put_key m key j value,
      )
