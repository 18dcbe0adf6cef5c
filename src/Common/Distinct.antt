-- ===== src/Common/Distinct.antt =====
-- Lists of texts in which none stands twice.
use Prim.Native.String.{String}
use mathlib.Core.Path.{◌≡◌, refl}
use mathlib.Core.Bool.{false, ◌||◌}
use mathlib.Core.List.{List, [], ◌∷◌, ◌++◌}
use native.Mathlib.Omega.{arith}
use text.Mathlib.Text.{◌==◌}
use text.Mathlib.TextEquality.{eq_iff}
use atproto_market.Common.Text.{includes}

abbrev pub Distinct : List String → Type 0
Distinct [] = Unit {0}
Distinct (u ∷ us) = (includes u us ≡ false) × Distinct us

pub includes-append :
    (u : String) (us vs : List String) → includes u (us ++ vs) ≡ includes u us || includes u vs
unfolding includes
includes-append u [] vs = refl
includes-append u (w ∷ us) vs = ground (arith, includes-append u us vs)

pub includes-append_false :
    (u v : String) (us : List String)
    → includes u us ≡ false
    → (v == u) ≡ false
    → includes u (us ++ v ∷ []) ≡ false
unfolding includes
includes-append_false u v [] h e = ground (arith, eq_iff u v, eq_iff v u)
includes-append_false u v (w ∷ us) h e = ground (arith, includes-append_false u v us)

pub append-Distinct :
    (u : String) (us : List String) → Distinct us → includes u us ≡ false → Distinct (us ++ u ∷ [])
unfolding includes
append-Distinct u [] h n = (refl, tt)
append-Distinct u (v ∷ us) h n =
    ground
      (arith, eq_iff u v, eq_iff v u, append-Distinct u us h.1, includes-append_false v u us h.0)
