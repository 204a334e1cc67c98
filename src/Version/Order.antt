-- ===== src/Version/Order.antt =====
-- The order of versions.
use talos_box.Base.{Bool, true, false, not, ◌&&◌, ◌≡◌, refl, sym, arith}
use talos_box.Version.{ParsedVersion, less}

prerelease-eq : (p q : Bool) → (p && not q) ≡ false → (q && not p) ≡ false → p ≡ q
prerelease-eq true true h k = refl
prerelease-eq false false h k = refl
prerelease-eq true false h k = h
prerelease-eq false true h k = sym k

-- Versions of which neither is below the other are equal.
pub less_total : (v w : ParsedVersion) → less v w ≡ false → less w v ≡ false → v ≡ w
unfolding less
less_total v w h k =
    let major : v.major ≡ w.major = ground arith in
    let minor : v.minor ≡ w.minor = ground arith in
    let patch : v.patch ≡ w.patch = ground arith in
    let p : (v.prerelease && not w.prerelease) ≡ false = ground arith in
    let q : (w.prerelease && not v.prerelease) ≡ false = ground arith in
    let pre = prerelease-eq v.prerelease w.prerelease p q in cc
