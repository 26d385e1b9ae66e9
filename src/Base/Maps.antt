-- ===== src/Base/Maps.antt =====
-- Association lists for `std::map` and `std::unordered_map`, with the equality of the keys as an
-- instance. A write through a reference to a value is `adjust`.
use Prim.Native.Nat.{ℕ, ◌+◌, ◌≤◌}
use mathlib.Core.Path.{◌≡◌, refl}
use mathlib.Core.Logic.{◌↔◌, ◌≢◌}
use mathlib.Core.Bool.{Bool, true, false}
use mathlib.Core.Option
use mathlib.Core.Option.{Option, none, some}
use mathlib.Core.List.{List, [], ◌∷◌}
use native.Mathlib.Omega.{arith}
use webrtc_cpp_remote_contro.Base.Tests.{◌==◌, ==_iff, if◌then◌else◌}
use webrtc_cpp_remote_contro.Base.Lists.{length}
use webrtc_cpp_remote_contro.Base.Texts.{Bytes, bytes_eq, bytes_eq_iff}

pub record Eq {ℓ} (A : Type ℓ) : Type ℓ where
  pub beq : A → A → Bool
  pub beq_iff : (a b : A) → (beq a b ≡ true) ↔ (a ≡ b)

instance abbrev pub nat_eq : Eq ℕ
nat_eq = record { beq = ◌==◌; beq_iff = ==_iff }

instance abbrev pub bytes_key : Eq Bytes
bytes_key = record { beq = bytes_eq; beq_iff = bytes_eq_iff }

module _ {ℓ} {K : Type ℓ} ⦃e : Eq K⦄ where
  pub beq_self : (k : K) → e.beq k k ≡ true
  beq_self k = (e.beq_iff k k).1 refl

  pub beq_ne : (j k : K) → j ≢ k → e.beq j k ≡ false
  beq_ne j k h = ground (arith, (e.beq_iff j k).0)

module _ {ℓ κ} {K : Type ℓ} {V : Type κ} ⦃e : Eq K⦄ where
  unfoldable pub lookup : K → List (K × V) → Option V
  lookup k [] = none
  lookup k ((j, v) ∷ m) = if e.beq j k then some v else lookup k m

  -- A key that is there keeps its value.
  unfoldable pub emplace : K → V → List (K × V) → List (K × V)
  emplace k v m = elim (lookup k m) [ none ↦ (k, v) ∷ m | some old ↦ m ]

  unfoldable pub erase : K → List (K × V) → List (K × V)
  erase k [] = []
  erase k ((j, v) ∷ m) = if e.beq j k then erase k m else (j, v) ∷ erase k m

  unfoldable pub adjust : K → (V → V) → List (K × V) → List (K × V)
  adjust k f [] = []
  adjust k f ((j, v) ∷ m) = (j, if e.beq j k then f v else v) ∷ adjust k f m

  pub emplace_new :
      (k : K) (v : V) (m : List (K × V)) → lookup k m ≡ none → emplace k v m ≡ (k, v) ∷ m
  unfolding emplace
  emplace_new k v m h = rw (h, emplace)

  pub emplace_old : (k : K) (v w : V) (m : List (K × V)) → lookup k m ≡ some w → emplace k v m ≡ m
  unfolding emplace
  emplace_old k v w m h = rw (h, emplace)

  pub lookup-cons :
      (k j : K) (v : V) (m : List (K × V))
      → lookup j ((k, v) ∷ m) ≡ (if e.beq k j then some v else lookup j m)
  unfolding lookup
  lookup-cons k j v m = refl

  pub length-emplace : (k : K) (v : V) (m : List (K × V)) → length (emplace k v m) ≤ length m + 1
  unfolding emplace
  length-emplace k v m = ground arith

  pub lookup-erase :
      (k j : K) (m : List (K × V)) → lookup j (erase k m) ≡ (if e.beq k j then none else lookup j m)
  unfolding lookup erase
  lookup-erase k j [] = ground arith
  lookup-erase k j ((i, v) ∷ m) =
      ground (arith, e.beq_iff k j, e.beq_iff i k, e.beq_iff i j, lookup-erase k j m)

  pub lookup-adjust :
      (k j : K) (f : V → V) (m : List (K × V))
      → lookup j (adjust k f m) ≡ (if e.beq k j then Option.map f (lookup j m) else lookup j m)
  unfolding lookup adjust
  lookup-adjust k j f [] = ground arith
  lookup-adjust k j f ((i, v) ∷ m) =
      ground (arith, e.beq_iff k j, e.beq_iff i k, e.beq_iff i j, lookup-adjust k j f m)

  pub length-adjust : (k : K) (f : V → V) (m : List (K × V)) → length (adjust k f m) ≡ length m
  unfolding adjust
  length-adjust k f [] = refl
  length-adjust k f ((i, v) ∷ m) = ground (arith, length-adjust k f m)

  pub length-erase : (k : K) (m : List (K × V)) → length (erase k m) ≤ length m
  unfolding erase
  length-erase k [] = omega arith
  length-erase k ((i, v) ∷ m) = ground (arith, length-erase k m)

module _ {ℓ κ} {K : Type ℓ} {V : Type κ} where
  -- A loop that writes to every value.
  unfoldable pub map_values : (V → V) → List (K × V) → List (K × V)
  map_values f [] = []
  map_values f ((k, v) ∷ m) = (k, f v) ∷ map_values f m

  pub length-map_values : (f : V → V) (m : List (K × V)) → length (map_values f m) ≡ length m
  unfolding map_values
  length-map_values f [] = refl
  length-map_values f ((k, v) ∷ m) = omega (arith, length-map_values f m)

  pub lookup-map_values :
      ⦃e : Eq K⦄ (k : K) (f : V → V) (m : List (K × V))
      → lookup k (map_values f m) ≡ Option.map f (lookup k m)
  unfolding lookup map_values
  lookup-map_values k f [] = refl
  lookup-map_values k f ((j, v) ∷ m) = ground (arith, lookup-map_values k f m)
