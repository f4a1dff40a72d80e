-- ===== src/LevelMap.antt =====
-- The ordered maps from price to quantity that the order books keep: `std::map` in
-- src/order_book/MapOrderBook.hpp, `absl::btree_map` in src/order_book/AbseilOrderBook.hpp.
-- The books take such a map as a parameter; `StdMap` is a value of it.
pub mod StdMap
use back_tester.Prelude.{
  ◌≡◌, Bool, true, Option, none, some, List, [], ◌∷◌, ℤ, ltb_ℤ, ◌==ℤ◌, All, if◌then◌else◌, find,
  int_key,
}

-- `std::less` and `std::greater`
abbrev pub ascending : ℤ → ℤ → Bool
ascending a b = ltb_ℤ a b

abbrev pub descending : ℤ → ℤ → Bool
descending a b = ltb_ℤ b a

-- Each key comes before all later ones.
abbrev pub IsSorted : (ℤ → ℤ → Bool) → List (ℤ × ℤ) → Type 0
IsSorted before [] = Unit
IsSorted before (x ∷ xs) = All (λ y. before x.0 y.0 ≡ true) xs × IsSorted before xs

-- The operations that the books use, with the documented behaviour of an ordered map: a lookup
-- after an assignment or an erasure, and an iteration that shows the entries in the order of keys.
-- `m[p] += d` is `level_at` and `set_level`; `begin()->first` is the head of `items`.
pub record OrderedMap (before : ℤ → ℤ → Bool) (M : Type 0) : Type 0 where
  pub empty : M
  pub level_at : ℤ → M → Option ℤ
  pub set_level : ℤ → ℤ → M → M
  pub erase_level : ℤ → M → M
  pub items : M → List (ℤ × ℤ)
  pub level_at-empty : (p : ℤ) → level_at p empty ≡ none
  pub level_at-set_level :
      (q p v : ℤ) (m : M)
      → level_at p (set_level q v m) ≡ (if q ==ℤ p then some v else level_at p m)
  pub level_at-erase_level :
      (q p : ℤ) (m : M) → level_at p (erase_level q m) ≡ (if q ==ℤ p then none else level_at p m)
  pub find-items : (p : ℤ) (m : M) → find p (items m) ≡ level_at p m
  pub items-IsSorted : (m : M) → IsSorted before (items m)
