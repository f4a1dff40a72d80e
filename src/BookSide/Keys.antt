-- ===== src/BookSide/Keys.antt =====
-- Membership among ascending prices, across the changes that an insertion and a removal make.
use back_tester.Prelude.{
  ◌≡◌, refl, true, false, Bool, not, ◌||◌, ◌&&◌, List, [], ◌∷◌, ◌++◌, ℤ, ltb_ℤ, ◌==ℤ◌, ==ℤ_iff,
  ◌<ℤ◌, All, Bool-cases, inl, inr, arith,
}
use back_tester.PriceLevel.Inorder.{IsAscending, insert_sorted}
use back_tester.PriceLevel.Remove.{drop_price}

abbrev pub mem : ℤ → List ℤ → Bool
mem p [] = false
mem p (x ∷ xs) = x ==ℤ p || mem p xs

pub mem-append : (p : ℤ) (xs ys : List ℤ) → mem p (xs ++ ys) ≡ (mem p xs || mem p ys)
mem-append p [] ys = refl
mem-append p (x ∷ xs) ys = ground (arith, mem-append p xs ys)

-- What holds of every member holds of all.
pub All-of_mem {κ} : (P : ℤ → Type κ) (xs : List ℤ) → ((p : ℤ) → mem p xs ≡ true → P p) → All P xs
All-of_mem P [] f = tt
All-of_mem P (x ∷ xs) f =
    (f x (ground (arith, ==ℤ_iff x x)), All-of_mem P xs (λ p m. f p (ground (arith, m))))

pub mem-insert_sorted : (p q : ℤ) (xs : List ℤ) → mem p (insert_sorted q xs) ≡ (q ==ℤ p || mem p xs)
unfolding insert_sorted
mem-insert_sorted p q [] = refl
mem-insert_sorted p q (x ∷ xs) = ground (arith, mem-insert_sorted p q xs)

All-mem : (q : ℤ) (xs : List ℤ) → All (λ y. q <ℤ y) xs → mem q xs ≡ false
All-mem q [] a = refl
All-mem q (x ∷ xs) a = ground (arith, All-mem q xs a.1)

pub mem-drop_price :
    (p q : ℤ) (xs : List ℤ) → IsAscending xs → mem p (drop_price q xs) ≡ (not (q ==ℤ p) && mem p xs)
unfolding drop_price
mem-drop_price p q [] a = ground arith
mem-drop_price p q (x ∷ xs) a =
    ground
      (arith, mem-drop_price p q xs a.1, ==ℤ_iff q p, ==ℤ_iff x p, ==ℤ_iff q x, All-mem x xs a.0)

All-insert_sorted :
    (z q : ℤ) (xs : List ℤ) → z <ℤ q → All (λ y. z <ℤ y) xs → All (λ y. z <ℤ y) (insert_sorted q xs)
unfolding insert_sorted
All-insert_sorted z q [] h a = (h, tt)
All-insert_sorted z q (x ∷ xs) h a = elim (Bool-cases (ltb_ℤ q x)) [
  | inl less ↦ rw less (h, a)
  | inr more ↦ rw more (a.0, All-insert_sorted z q xs h a.1)
]

above_first :
    (q x : ℤ) (xs : List ℤ) → ltb_ℤ q x ≡ true → All (λ y. x <ℤ y) xs → All (λ y. q <ℤ y) xs
above_first q x [] h a = tt
above_first q x (y ∷ ys) h a = (ground arith, above_first q x ys h a.1)

lt_of_tests : (q x : ℤ) → ltb_ℤ q x ≡ false → (x ==ℤ q) ≡ false → x <ℤ q
lt_of_tests q x h k = ground arith

lt_of_test : (q x : ℤ) → ltb_ℤ q x ≡ true → q <ℤ x
lt_of_test q x h = ground arith

or-false : (a b : Bool) → (a || b) ≡ false → (a ≡ false) × (b ≡ false)
or-false a b h = ground arith

-- A price that is not there is inserted into its place.
pub insert_sorted-IsAscending :
    (q : ℤ) (xs : List ℤ) → mem q xs ≡ false → IsAscending xs → IsAscending (insert_sorted q xs)
unfolding insert_sorted
insert_sorted-IsAscending q [] f a = (tt, tt)
insert_sorted-IsAscending q (x ∷ xs) f a =
    let (apart, rest) = or-false (x ==ℤ q) (mem q xs) f in
    elim (Bool-cases (ltb_ℤ q x)) [
      | inl less ↦ rw less ((lt_of_test q x less, above_first q x xs less a.0), a)
      | inr more ↦ rw more (
        All-insert_sorted x q xs (lt_of_tests q x more apart) a.0,
        insert_sorted-IsAscending q xs rest a.1,
      )
    ]

All-drop_price :
    (z q : ℤ) (xs : List ℤ) → All (λ y. z <ℤ y) xs → All (λ y. z <ℤ y) (drop_price q xs)
unfolding drop_price
All-drop_price z q [] a = tt
All-drop_price z q (x ∷ xs) a = elim (Bool-cases (q ==ℤ x)) [
  | inl same ↦ rw same a.1
  | inr apart ↦ rw apart (a.0, All-drop_price z q xs a.1)
]

pub drop_price-IsAscending : (q : ℤ) (xs : List ℤ) → IsAscending xs → IsAscending (drop_price q xs)
unfolding drop_price
drop_price-IsAscending q [] a = tt
drop_price-IsAscending q (x ∷ xs) a = elim (Bool-cases (q ==ℤ x)) [
  | inl same ↦ rw same a.1
  | inr apart ↦ rw apart (All-drop_price x q xs a.0, drop_price-IsAscending q xs a.1)
]
