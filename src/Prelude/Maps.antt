-- ===== src/Prelude/Maps.antt =====
-- A hash map with numbers for keys, as the list of its entries, each key once.
use Prim.Native.Nat.{ℕ}
use mathlib.Core.Path.{◌≡◌, refl}
use mathlib.Core.Option.{Option, none, some}
use mathlib.Core.List.{List, [], ◌∷◌}
use native.Mathlib.Omega.{arith}
use rpglot.Prelude.Tests.{◌==◌, if◌then◌else◌}

abbrev pub Map {ℓ} : Type ℓ → Type ℓ
Map V = List (ℕ × V)

unfoldable pub map_get {ℓ} : {V : Type ℓ} → ℕ → Map V → Option V
map_get k [] = none
map_get k ((j, v) ∷ m) = if j == k then some v else map_get k m

unfoldable pub map_insert {ℓ} : {V : Type ℓ} → ℕ → V → Map V → Map V
map_insert k v [] = (k, v) ∷ []
map_insert k v ((j, w) ∷ m) =
    let rest = map_insert k v m in if j == k then (k, v) ∷ m else (j, w) ∷ rest

pub get-insert {ℓ} :
    {V : Type ℓ} (k j : ℕ) (v : V) (m : Map V)
    → map_get j (map_insert k v m) ≡ (if k == j then some v else map_get j m)
unfolding map_get map_insert
get-insert k j v [] = refl
get-insert k j v ((i, w) ∷ m) = ground (arith, get-insert k j v m)
