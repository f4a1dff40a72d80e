-- ===== src/LevelMap/StdMap.antt =====
-- A `std::map` from price to quantity: its entries in the order of the keys.
use back_tester.Prelude.{
  ◌≡◌, refl, ◌⊎◌, Bool, true, some, List, [], ◌∷◌, ℤ, ◌==ℤ◌, ==ℤ_iff, All, All-imp, if◌then◌else◌,
  find, erase, find-erase, int_key, Bool-cases, inl, inr, arith,
}
use back_tester.LevelMap.{ascending, descending, IsSorted, OrderedMap}

pub record IsStrictOrder (before : ℤ → ℤ → Bool) : Type 0 where
  pub before_trans : (a b c : ℤ) → before a b ≡ true → before b c ≡ true → before a c ≡ true
  pub before_total : (a b : ℤ) → ((a ==ℤ b) ≡ true) ⊎ ((before a b ≡ true) ⊎ (before b a ≡ true))

pub ascending-IsStrictOrder : IsStrictOrder ascending
ascending-IsStrictOrder = record {
  before_trans = λ a b c h k. ground arith;
  before_total = λ a b. ground arith;
}

pub descending-IsStrictOrder : IsStrictOrder descending
descending-IsStrictOrder = record {
  before_trans = λ a b c h k. ground arith;
  before_total = λ a b. ground arith;
}

module _ (before : ℤ → ℤ → Bool) where
  unfoldable pub insert : ℤ → ℤ → List (ℤ × ℤ) → List (ℤ × ℤ)
  insert p v [] = (p, v) ∷ []
  insert p v ((k, w) ∷ m) =
      if k ==ℤ p
      then (p, v) ∷ m
      else (if before p k then (p, v) ∷ (k, w) ∷ m else (k, w) ∷ insert p v m)

  pub find-insert :
      (q p v : ℤ) (m : List (ℤ × ℤ))
      → find p (insert q v m) ≡ (if q ==ℤ p then some v else find p m)
  unfolding find insert
  find-insert q p v [] = refl
  find-insert q p v ((k, w) ∷ m) =
      ground (arith, ==ℤ_iff q p, ==ℤ_iff k q, ==ℤ_iff k p, find-insert q p v m)

  All-insert :
      (P : ℤ → Type 0) (q v : ℤ) (m : List (ℤ × ℤ))
      → P q
      → All (λ x. P x.0) m
      → All (λ x. P x.0) (insert q v m)
  unfolding insert
  All-insert P q v [] h a = (h, tt)
  All-insert P q v ((k, w) ∷ m) h a = ground (arith, All-insert P q v m)

  All-erase :
      (P : ℤ → Type 0) (q : ℤ) (m : List (ℤ × ℤ))
      → All (λ x. P x.0) m
      → All (λ x. P x.0) (erase q m)
  unfolding erase
  All-erase P q [] a = tt
  All-erase P q ((k, w) ∷ m) a = ground (arith, All-erase P q m)

  pub erase-IsSorted : (q : ℤ) (m : List (ℤ × ℤ)) → IsSorted before m → IsSorted before (erase q m)
  unfolding erase
  erase-IsSorted q [] s = tt
  erase-IsSorted q ((k, w) ∷ m) s =
      ground (arith, erase-IsSorted q m, All-erase (λ j. before k j ≡ true) q m)

  module _ (o : IsStrictOrder before) where
    pub insert-IsSorted :
        (q v : ℤ) (m : List (ℤ × ℤ)) → IsSorted before m → IsSorted before (insert q v m)
    unfolding insert
    insert-IsSorted q v [] s = (tt, tt)
    insert-IsSorted q v ((k, w) ∷ m) s = elim (Bool-cases (k ==ℤ q)) [
      | inl same ↦ rw same (All-imp (λ y h. rw (← (==ℤ_iff k q).0 same) h) m s.0, s.1)
      | inr apart ↦ rw apart (elim (Bool-cases (before q k)) [
        | inl first ↦ rw first ((first, All-imp (λ y h. o.before_trans q k y.0 first h) m s.0), s)
        | inr later ↦ rw later (
          All-insert (λ j. before k j ≡ true) q v m (ground (arith, o.before_total k q)) s.0,
          insert-IsSorted q v m s.1,
        )
      ])
    ]

    -- The entries with their order: what a `std::map` object holds.
    abbrev pub Entries : Type 0
    Entries = (m : List (ℤ × ℤ)) × IsSorted before m

    unfoldable pub std_map : OrderedMap before Entries
    unfolding insert erase find
    std_map = record {
      empty = ([], tt);
      level_at = λ p m. find p m.0;
      set_level = λ p v m. (insert p v m.0, insert-IsSorted p v m.0 m.1);
      erase_level = λ p m. (erase p m.0, erase-IsSorted p m.0 m.1);
      items = λ m. m.0;
      level_at-empty = λ p. refl;
      level_at-set_level = λ q p v m. find-insert q p v m.0;
      level_at-erase_level = λ q p m. find-erase q p m.0;
      find-items = λ p m. refl;
      items-IsSorted = λ m. m.1;
    }
