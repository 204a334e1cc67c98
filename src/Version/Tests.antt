-- ===== src/Version/Tests.antt =====
-- The order on a pre-release and its neighbours.
use talos_box.Base.{true, false, ◌≡◌, refl}
use talos_box.Version.{ParsedVersion, less, floor, tested}
use talos_box.Version.Order.{less_total}

abbrev alpha : ParsedVersion
alpha = record { major = 1; minor = 13; patch = 9; prerelease = true }

floor_below : less floor alpha ≡ true
unfolding less
floor_below = refl

alpha_below : less alpha tested ≡ true
unfolding less
alpha_below = refl

not_itself : less tested tested ≡ false
unfolding less
not_itself = refl

less_total_example : tested ≡ tested
less_total_example = less_total tested tested not_itself not_itself
