-- ===== src/MapOrderBook/Levels.antt =====
-- What the level helpers of src/order_book/MapOrderBook.cpp do to the quantity at each price.
use back_tester.Prelude.{
  ℕ, ◌+◌, ◌-◌, ◌≡◌, refl, Bool, true, false, some, ℤ, pos, ◌+ℤ◌, ◌-ℤ◌, ◌==ℤ◌, ==ℤ_iff, Option-cases,
  inl, inr, if◌then◌else◌, arith,
}
use back_tester.Event.{Side, hits}
use back_tester.LevelMap.{OrderedMap}
use back_tester.MapOrderBook.{
  LevelMaps, Book, or_zero, add_level, remove_level, add_to_level, remove_from_level,
}

module _ {before : ℤ → ℤ → Bool} {M : Type 0} (o : OrderedMap before M) where
  -- A sum in the naturals: no quantity is negative.
  level-add_level :
      (q p : ℤ) (d n : ℕ) (m : M)
      → or_zero (o.level_at p m) ≡ pos n
      → or_zero (o.level_at p (add_level o q (pos d) m)) ≡ pos (n + (if q ==ℤ p then d else 0))
  unfolding ◌+ℤ◌
  level-add_level q p d n m h =
      ground (arith, o.level_at-set_level q p (or_zero (o.level_at q m) +ℤ pos d) m, ==ℤ_iff q p)

  level-remove_known :
      (q p w : ℤ) (d n : ℕ) (m : M)
      → or_zero (o.level_at p m) ≡ pos n
      → o.level_at q m ≡ some w
      → or_zero (o.level_at p (remove_level o q (pos d) m)) ≡ pos (n - (if q ==ℤ p then d else 0))
  unfolding ◌-ℤ◌
  level-remove_known q p w d n m h e =
      ground
        (arith, o.level_at-set_level q p (w -ℤ pos d) m, o.level_at-erase_level q p m, ==ℤ_iff q p)

  level-remove_level :
      (q p : ℤ) (d n : ℕ) (m : M)
      → or_zero (o.level_at p m) ≡ pos n
      → or_zero (o.level_at p (remove_level o q (pos d) m)) ≡ pos (n - (if q ==ℤ p then d else 0))
  level-remove_level q p d n m h = elim (Option-cases (o.level_at q m)) [
    | inl absent ↦ ground (arith, ==ℤ_iff q p)
    | inr (w, e) ↦ level-remove_known q p w d n m h e
  ]

module _ {B A : Type 0} ⦃maps : LevelMaps B A⦄ where
  open maps use {bid_map, ask_map}

  -- The quantity that a book shows at a price of one side, `true` for the bids.
  abbrev pub quantity : Bool → ℤ → Book B A → ℤ
  quantity s p b =
      if s then or_zero (bid_map.level_at p b.bids) else or_zero (ask_map.level_at p b.asks)

  pub quantity-add_to_level :
      (s : Bool) (side : Side) (p price : ℤ) (d n : ℕ) (b : Book B A)
      → quantity s p b ≡ pos n
      → quantity s p (add_to_level side price (pos d) b)
        ≡ pos (n + (if hits s p side price then d else 0))
  unfolding add_to_level
  quantity-add_to_level true Side.buy p price d n b h = level-add_level bid_map price p d n b.bids h
  quantity-add_to_level true side p price d n b h = ground arith
  quantity-add_to_level false Side.buy p price d n b h = ground arith
  quantity-add_to_level false side p price d n b h = level-add_level ask_map price p d n b.asks h

  pub quantity-remove_from_level :
      (s : Bool) (side : Side) (p price : ℤ) (d n : ℕ) (b : Book B A)
      → quantity s p b ≡ pos n
      → quantity s p (remove_from_level side price (pos d) b)
        ≡ pos (n - (if hits s p side price then d else 0))
  unfolding remove_from_level
  quantity-remove_from_level true Side.buy p price d n b h =
      level-remove_level bid_map price p d n b.bids h
  quantity-remove_from_level true side p price d n b h = ground arith
  quantity-remove_from_level false Side.buy p price d n b h = ground arith
  quantity-remove_from_level false side p price d n b h =
      level-remove_level ask_map price p d n b.asks h

  pub index-add_to_level :
      (side : Side) (p d : ℤ) (b : Book B A) → (add_to_level side p d b).order_index ≡ b.order_index
  unfolding add_to_level
  index-add_to_level Side.buy p d b = refl
  index-add_to_level side p d b = refl

  pub index-remove_from_level :
      (side : Side) (p d : ℤ) (b : Book B A)
      → (remove_from_level side p d b).order_index ≡ b.order_index
  unfolding remove_from_level
  index-remove_from_level Side.buy p d b = refl
  index-remove_from_level side p d b = refl
