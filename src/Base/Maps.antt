-- ===== src/Base/Maps.antt =====
-- Go maps that are read, written and deleted from by key, and never walked: functions on keys.
use mathlib.Core.Path.{◌≡◌, refl}
use mathlib.Core.Logic.{ite, if_pos, if_neg, ◌≢◌}

module _ {ℓ κ} {K : Type ℓ} {V : Type κ} where
  -- `m[k] = v`
  abbrev pub update : Discrete K → (K → V) → K → V → K → V
  update dec m k v = λ j. ite (dec k j) v (m j)

  pub update_self : (dec : Discrete K) (m : K → V) (k : K) (v : V) → update dec m k v k ≡ v
  update_self dec m k v = if_pos (dec k k) refl v (m k)

  pub update_ne :
      (dec : Discrete K) (m : K → V) (k j : K) (v : V) → k ≢ j → update dec m k v j ≡ m j
  update_ne dec m k j v h = if_neg (dec k j) h v (m j)
