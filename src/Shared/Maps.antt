-- ===== src/Shared/Maps.antt =====
-- Go maps as association lists. A write replaces the entry, `delete` drops it.
use mathlib.Core.Path.{◌≡◌, refl}
use mathlib.Core.Option.{Option, none, some}
use mathlib.Core.List.{List, [], ◌∷◌}
use native.Mathlib.Omega.{arith}
use go_sarah.Shared.Tests.{Eq, ◌==◌, if◌then◌else◌, ==_iff}

abbrev pub Map {ℓ κ} : Type ℓ → Type κ → Type (ℓ ⊔ κ)
Map K V = List (K × V)

module _ {ℓ κ} {K : Type ℓ} {V : Type κ} ⦃e : Eq K⦄ where
  unfoldable pub lookup : K → Map K V → Option V
  lookup k [] = none
  lookup k ((l, v) ∷ entries) = if l == k then some v else lookup k entries

  unfoldable pub insert : K → V → Map K V → Map K V
  insert k v [] = (k, v) ∷ []
  insert k v ((l, w) ∷ entries) = if l == k then (k, v) ∷ entries else (l, w) ∷ insert k v entries

  unfoldable pub delete : K → Map K V → Map K V
  delete k [] = []
  delete k ((l, w) ∷ entries) =
      let others = delete k entries in if l == k then others else (l, w) ∷ others

  pub lookup-insert :
      (k l : K) (v : V) (entries : Map K V)
      → lookup l (insert k v entries) ≡ (if k == l then some v else lookup l entries)
  unfolding lookup insert
  lookup-insert k l v [] = refl
  lookup-insert k l v ((i, w) ∷ entries) =
      ground (arith, ==_iff k l, ==_iff i k, ==_iff i l, lookup-insert k l v entries)

  pub lookup-delete :
      (k l : K) (entries : Map K V)
      → lookup l (delete k entries) ≡ (if k == l then none else lookup l entries)
  unfolding lookup delete
  lookup-delete k l [] = ground arith
  lookup-delete k l ((i, w) ∷ entries) =
      ground (arith, ==_iff k l, ==_iff i k, ==_iff i l, lookup-delete k l entries)
