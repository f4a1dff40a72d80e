-- ===== src/Prelude/Dicts.antt =====
-- `std::unordered_map` as an association list under a Boolean test that decides the equality of
-- keys, with `operator[]` assignment, `find` and `erase`.
use Prim.Native.Nat.{ℕ, ◌+◌, ◌≤◌}
use mathlib.Core.Path.{◌≡◌, refl, ap}
use mathlib.Core.Logic.{◌↔◌, inl, inr}
use mathlib.Core.Bool.{Bool, true, false}
use mathlib.Core.List.{List, [], ◌∷◌}
use mathlib.Core.Option.{Option, none, some}
use native.Mathlib.Omega.{arith}
use back_tester.Prelude.Tests.{◌==◌, ==_iff, if◌then◌else◌, Bool-cases}
use back_tester.Prelude.Ints.{ℤ, ◌==ℤ◌, ==ℤ_iff}

pub record Key {ℓ} (K : Type ℓ) : Type ℓ where
  pub beq : K → K → Bool
  pub beq_iff : (a b : K) → (beq a b ≡ true) ↔ (a ≡ b)

instance abbrev pub nat_key : Key ℕ
nat_key = record { beq = ◌==◌; beq_iff = ==_iff }

instance abbrev pub int_key : Key ℤ
int_key = record { beq = ◌==ℤ◌; beq_iff = ==ℤ_iff }

abbrev pub Dict {ℓ κ} : Type ℓ → Type κ → Type (ℓ ⊔ κ)
Dict K V = List (K × V)

-- The weight of what a lookup finds.
abbrev pub weight {κ} : {V : Type κ} → (V → ℕ) → Option V → ℕ
weight f none = 0
weight f (some v) = f v

module _ {ℓ κ} {K : Type ℓ} {V : Type κ} ⦃k : Key K⦄ where
  unfoldable pub find : K → Dict K V → Option V
  find q [] = none
  find q ((j, v) ∷ m) = if k.beq j q then some v else find q m

  unfoldable pub assign : K → V → Dict K V → Dict K V
  assign q v [] = (q, v) ∷ []
  assign q v ((j, w) ∷ m) = if k.beq j q then (q, v) ∷ m else (j, w) ∷ assign q v m

  unfoldable pub erase : K → Dict K V → Dict K V
  erase q [] = []
  erase q ((j, w) ∷ m) = let rest = erase q m in if k.beq j q then rest else (j, w) ∷ rest

  pub find-assign :
      (q p : K) (v : V) (m : Dict K V)
      → find p (assign q v m) ≡ (if k.beq q p then some v else find p m)
  unfolding find assign
  find-assign q p v [] = refl
  find-assign q p v ((j, w) ∷ m) =
      ground (arith, k.beq_iff q p, k.beq_iff j q, k.beq_iff j p, find-assign q p v m)

  pub find-erase :
      (q p : K) (m : Dict K V) → find p (erase q m) ≡ (if k.beq q p then none else find p m)
  unfolding find erase
  find-erase q p [] = ground arith
  find-erase q p ((j, w) ∷ m) =
      ground (arith, k.beq_iff q p, k.beq_iff j q, k.beq_iff j p, find-erase q p m)

  -- The key stands in no entry.
  abbrev pub IsFresh : K → Dict K V → Type 0
  IsFresh q [] = Unit
  IsFresh q ((j, w) ∷ m) = (k.beq j q ≡ false) × IsFresh q m

  -- Each key stands in one entry, as in a `std::unordered_map`.
  abbrev pub HasUniqueKeys : Dict K V → Type 0
  HasUniqueKeys [] = Unit
  HasUniqueKeys ((j, w) ∷ m) = IsFresh j m × HasUniqueKeys m

  IsFresh-assign :
      (j q : K) (v : V) (m : Dict K V) → k.beq q j ≡ false → IsFresh j m → IsFresh j (assign q v m)
  unfolding assign
  IsFresh-assign j q v [] h f = (h, tt)
  IsFresh-assign j q v ((i, w) ∷ m) h f = ground (arith, IsFresh-assign j q v m)

  IsFresh-erase : (j q : K) (m : Dict K V) → IsFresh j m → IsFresh j (erase q m)
  unfolding erase
  IsFresh-erase j q [] f = tt
  IsFresh-erase j q ((i, w) ∷ m) f = ground (arith, IsFresh-erase j q m)

  pub assign-HasUniqueKeys :
      (q : K) (v : V) (m : Dict K V) → HasUniqueKeys m → HasUniqueKeys (assign q v m)
  unfolding assign
  assign-HasUniqueKeys q v [] u = (tt, tt)
  assign-HasUniqueKeys q v ((i, w) ∷ m) u = elim (Bool-cases (k.beq i q)) [
    | inl same ↦ rw same (rw (← (k.beq_iff i q).0 same) u.0, u.1)
    | inr apart ↦ rw apart (
      IsFresh-assign i q v m (ground (arith, k.beq_iff q i, k.beq_iff i q)) u.0,
      assign-HasUniqueKeys q v m u.1,
    )
  ]

  pub erase-HasUniqueKeys : (q : K) (m : Dict K V) → HasUniqueKeys m → HasUniqueKeys (erase q m)
  unfolding erase
  erase-HasUniqueKeys q [] u = tt
  erase-HasUniqueKeys q ((i, w) ∷ m) u =
      ground (arith, erase-HasUniqueKeys q m, IsFresh-erase i q m)

  erase_fresh : (q : K) (m : Dict K V) → IsFresh q m → erase q m ≡ m
  unfolding erase
  erase_fresh q [] f = refl
  erase_fresh q ((i, w) ∷ m) f = rw f.0 (ap (λ r. (i, w) ∷ r) (erase_fresh q m f.1))

  -- The sum of a weight over all entries.
  abbrev pub total : (V → ℕ) → Dict K V → ℕ
  total f [] = 0
  total f ((j, v) ∷ m) = f v + total f m

  pub total-assign :
      (f : V → ℕ) (q : K) (v : V) (m : Dict K V)
      → total f (assign q v m) + weight f (find q m) ≡ total f m + f v
  unfolding assign find
  total-assign f q v [] = omega arith
  total-assign f q v ((i, w) ∷ m) = ground (arith, total-assign f q v m)

  pub total-erase :
      (f : V → ℕ) (q : K) (m : Dict K V)
      → HasUniqueKeys m
      → total f (erase q m) + weight f (find q m) ≡ total f m
  unfolding erase find
  total-erase f q [] u = omega arith
  total-erase f q ((i, w) ∷ m) u = elim (Bool-cases (k.beq i q)) [
    | inl same ↦ rw (same, erase_fresh q m (rw (← (k.beq_iff i q).0 same) u.0)) (omega arith)
    | inr apart ↦ rw apart (omega (arith, total-erase f q m u.1))
  ]

  pub weight-le-total : (f : V → ℕ) (q : K) (m : Dict K V) → weight f (find q m) ≤ total f m
  unfolding find
  weight-le-total f q [] = omega arith
  weight-le-total f q ((i, w) ∷ m) = ground (arith, weight-le-total f q m)
