-- ===== src/MapOrderBook/Volume.antt =====
-- The quantity at a price of src/order_book/MapOrderBook.cpp is the sum of the orders resting there.
use back_tester.Prelude.{
  ℕ, ◌+◌, ◌-◌, ◌≤◌, ◌≡◌, ap, ◌∙◌, Bool, none, some, ℤ, pos, ◌==◌, Bool-cases, inl, inr,
  if◌then◌else◌, Dict, nat_key, find, assign, erase, total, weight, total-assign, total-erase,
  weight-le-total, HasUniqueKeys, assign-HasUniqueKeys, erase-HasUniqueKeys, arith,
}
use back_tester.Event.{MarketDataEvent, hits}
use back_tester.MapOrderBook.{OrderRecord, LevelMaps, Book, add_to_level, remove_from_level}
use back_tester.MapOrderBook.Levels.{
  quantity, quantity-add_to_level, quantity-remove_from_level, index-add_to_level,
  index-remove_from_level,
}

-- What a record adds to price `p` of the side `s`.
abbrev pub share : Bool → ℤ → OrderRecord → ℕ
share s p r = if hits s p r.side r.price then r.size else 0

-- The sizes of all orders that rest at price `p` of the side `s`.
abbrev pub resting : Bool → ℤ → Dict ℕ OrderRecord → ℕ
resting s p index = total (share s p) index

-- The index after a cancel, whose order keeps `e.size`.
abbrev pub kept : MarketDataEvent → OrderRecord → Dict ℕ OrderRecord → Dict ℕ OrderRecord
kept e r index =
    if e.size == 0
    then erase e.order_id index
    else assign e.order_id (record r { size = e.size }) index

pub resting-kept :
    (s : Bool) (p : ℤ) (e : MarketDataEvent) (r : OrderRecord) (index : Dict ℕ OrderRecord)
    → HasUniqueKeys index
    → find e.order_id index ≡ some r
    → e.size ≤ r.size
    → resting s p (kept e r index) + (if hits s p r.side r.price then r.size - e.size else 0)
      ≡ resting s p index
resting-kept s p e r index u known le = ground (
  arith,
  total-erase (share s p) e.order_id index u,
  total-assign (share s p) e.order_id (record r { size = e.size }) index,
  weight-le-total (share s p) e.order_id index,
  ap (weight (share s p)) known,
)

pub kept-HasUniqueKeys :
    (e : MarketDataEvent) (r : OrderRecord) (index : Dict ℕ OrderRecord)
    → HasUniqueKeys index
    → HasUniqueKeys (kept e r index)
kept-HasUniqueKeys e r index u = elim (Bool-cases (e.size == 0)) [
  | inl zero_size ↦ rw zero_size (erase-HasUniqueKeys e.order_id index u)
  | inr more ↦ rw more (assign-HasUniqueKeys e.order_id (record r { size = e.size }) index u)
]

module _ {B A : Type 0} ⦃maps : LevelMaps B A⦄ where
  -- Each level shows the sum of its orders.
  pub record IsConsistent (b : Book B A) : Type 0 where
    pub unique : HasUniqueKeys b.order_index
    pub summed : (s : Bool) (p : ℤ) → quantity s p b ≡ pos (resting s p b.order_index)

  -- A book whose levels show the sums of `index`, with an index that equals it.
  pub settled :
      (b : Book B A) {index index' : Dict ℕ OrderRecord}
      → index' ≡ index
      → HasUniqueKeys index
      → ((s : Bool) (p : ℤ) → quantity s p b ≡ pos (resting s p index))
      → IsConsistent (record b { order_index = index' })
  settled b e u h = record { unique = rw e u; summed = λ s p. rw e (h s p) }

  -- A new order `id` has joined the levels.
  pub added-IsConsistent :
      (id : ℕ) (r : OrderRecord) (b : Book B A)
      → IsConsistent b
      → find id b.order_index ≡ none
      → let b' = add_to_level r.side r.price (pos r.size) b in
        IsConsistent (record b' { order_index = assign id r b'.order_index })
  added-IsConsistent id r b c fresh =
      let b' = add_to_level r.side r.price (pos r.size) b in
      settled b' (ap (assign id r) (index-add_to_level r.side r.price (pos r.size) b))
        (assign-HasUniqueKeys id r b.order_index c.unique)
        (λ s p.
          quantity-add_to_level s r.side p r.price r.size (resting s p b.order_index) b
            (c.summed s p)
          ∙ ap pos (
              omega (
                arith,
                total-assign (share s p) id r b.order_index,
                ap (weight (share s p)) fresh,
              )))

  -- The order `id` now is `r`, after `gone` has left the levels and `r` has joined them.
  pub replaced-IsConsistent :
      (id : ℕ) (gone r : OrderRecord) (b : Book B A)
      → IsConsistent b
      → find id b.order_index ≡ some gone
      → let b' = remove_from_level gone.side gone.price (pos gone.size) b in
        let b'' = add_to_level r.side r.price (pos r.size) b' in
        IsConsistent (record b'' { order_index = assign id r b''.order_index })
  replaced-IsConsistent id gone r b c known =
      let b' = remove_from_level gone.side gone.price (pos gone.size) b in
      let b'' = add_to_level r.side r.price (pos r.size) b' in
      settled b''
        (ap (assign id r) (
          index-add_to_level r.side r.price (pos r.size) b'
          ∙ index-remove_from_level gone.side gone.price (pos gone.size) b))
        (assign-HasUniqueKeys id r b.order_index c.unique)
        (λ s p.
          quantity-add_to_level s r.side p r.price r.size
            (resting s p b.order_index - share s p gone) b'
            (quantity-remove_from_level s gone.side p gone.price gone.size
              (resting s p b.order_index) b (c.summed s p))
          ∙ ap pos (
              omega (
                arith,
                total-assign (share s p) id r b.order_index,
                weight-le-total (share s p) id b.order_index,
                ap (weight (share s p)) known,
              )))

  -- The levels have given up `d` of the order `r`, and so has the index.
  pub shrunk-IsConsistent :
      (r : OrderRecord) (d : ℕ) (b : Book B A) {index index' : Dict ℕ OrderRecord}
      → IsConsistent b
      → index' ≡ index
      → HasUniqueKeys index
      → ((s : Bool) (p : ℤ)
          → resting s p index + (if hits s p r.side r.price then d else 0)
            ≡ resting s p b.order_index)
      → IsConsistent (record (remove_from_level r.side r.price (pos d) b) { order_index = index' })
  shrunk-IsConsistent r d b c e u h =
      settled (remove_from_level r.side r.price (pos d) b) e u (λ s p.
        quantity-remove_from_level s r.side p r.price d (resting s p b.order_index) b (c.summed s p)
        ∙ ap pos (omega (arith, h s p)))
