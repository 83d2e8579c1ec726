-- ===== src/Prelude/Maps.antt =====
-- Keys with a Boolean equality, and maps as association lists. A present key is written in place.
use tg_control_api_server.Prelude.Tests.{if◌then◌else◌, ◌is◌, ◌==◌, is_iff, Bool-cases}
use tg_control_api_server.Prelude.Lists.{All}
use Prim.Native.Nat.{ℕ}
use Prim.Native.String.{String}
use mathlib.Core.Path.{◌≡◌, refl, subst}
use mathlib.Core.Logic.{◌↔◌, inl, inr}
use mathlib.Core.Bool.{Bool, true, false}
use mathlib.Core.Option.{Option, none, some}
use mathlib.Core.List.{List, [], ◌∷◌}
use native.Mathlib.Omega.{arith}

pub record Eq {ℓ} (K : Type ℓ) : Type ℓ where
  pub same : K → K → Bool
  pub same_iff : (a b : K) → (same a b ≡ true) ↔ (a ≡ b)

instance abbrev pub text_eq : Eq String
text_eq = record { same = ◌is◌; same_iff = is_iff }

-- Signed integers; `negsuc n` is -(n + 1).
pub data ℤ : Type 0 where
  pos : ℕ → ℤ
  negsuc : ℕ → ℤ

abbrev pub int_same : ℤ → ℤ → Bool
int_same (pos m) (pos n) = m == n
int_same (negsuc m) (negsuc n) = m == n
int_same (pos m) (negsuc n) = false
int_same (negsuc m) (pos n) = false

pub int_same_iff : (a b : ℤ) → (int_same a b ≡ true) ↔ (a ≡ b)
int_same_iff (pos m) (pos n) = ground arith
int_same_iff (negsuc m) (negsuc n) = ground arith
int_same_iff (pos m) (negsuc n) = ground arith
int_same_iff (negsuc m) (pos n) = ground arith

instance abbrev pub int_eq : Eq ℤ
int_eq = record { same = int_same; same_iff = int_same_iff }

abbrev pub Map {ℓ} : Type ℓ → Type ℓ → Type ℓ
Map K V = List (K × V)

pub same_refl {ℓ} : {K : Type ℓ} ⦃e : Eq K⦄ (k : K) → e.same k k ≡ true
same_refl ⦃e⦄ k = (e.same_iff k k).1 refl

module _ {ℓ} {K : Type ℓ} ⦃e : Eq K⦄ {V : Type ℓ} where
  unfoldable pub get : Map K V → K → Option V
  get [] k = none
  get ((j, v) ∷ m) k = if e.same j k then some v else get m k

  unfoldable pub put : Map K V → K → V → Map K V
  put [] k v = (k, v) ∷ []
  put ((j, w) ∷ m) k v = if e.same j k then (j, v) ∷ m else (j, w) ∷ put m k v

  unfoldable pub remove : Map K V → K → Map K V
  remove [] k = []
  remove ((j, w) ∷ m) k = let rest = remove m k in if e.same j k then rest else (j, w) ∷ rest

  pub get-put :
      (m : Map K V) (k j : K) (v : V) → get (put m k v) j ≡ (if e.same k j then some v else get m j)
  unfolding get put
  get-put [] k j v = refl
  get-put ((i, w) ∷ m) k j v =
      ground (arith, get-put m k j v, e.same_iff i k, e.same_iff i j, e.same_iff k j)

  pub get-remove :
      (m : Map K V) (k j : K) → get (remove m k) j ≡ (if e.same k j then none else get m j)
  unfolding get remove
  get-remove [] k j = ground arith
  get-remove ((i, w) ∷ m) k j =
      ground (arith, get-remove m k j, e.same_iff i k, e.same_iff i j, e.same_iff k j)

  pub All-put {κ} :
      (P : V → Type κ) (m : Map K V) (k : K) (v : V)
      → All (λ (r : K × V). P r.1) m
      → P v
      → All (λ (r : K × V). P r.1) (put m k v)
  unfolding put
  All-put P [] k v a p = (p, tt)
  All-put P ((j, w) ∷ m) k v a p = elim (Bool-cases (e.same j k)) [
    | inl h ↦ rw h (p, a.1)
    | inr h ↦ rw h (a.0, All-put P m k v a.1 p)
  ]

  pub All-remove {κ} :
      (P : V → Type κ) (m : Map K V) (k : K)
      → All (λ (r : K × V). P r.1) m
      → All (λ (r : K × V). P r.1) (remove m k)
  unfolding remove
  All-remove P [] k a = tt
  All-remove P ((j, w) ∷ m) k a = elim (Bool-cases (e.same j k)) [
    | inl h ↦ rw h (All-remove P m k a.1)
    | inr h ↦ rw h (a.0, All-remove P m k a.1)
  ]

  pub All-get {κ} :
      (P : V → Type κ) (m : Map K V) (k : K) (v : V)
      → All (λ (r : K × V). P r.1) m
      → get m k ≡ some v
      → P v
  unfolding get
  All-get P [] k v a h = absurd (cc)
  All-get P ((j, w) ∷ m) k v a h = elim (Bool-cases (e.same j k)) [
    | inl s ↦ subst P (ground (arith, s, h)) a.0
    | inr s ↦ All-get P m k v a.1 (ground (arith, s, h))
  ]
