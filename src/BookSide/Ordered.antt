-- ===== src/BookSide/Ordered.antt =====
-- The structure of a side in src/order_book/LimitOrderBook.cpp: its tree, its hash map and its best
-- pointer agree, and every change of a level keeps that.
use back_tester.Prelude.{
  ◌≡◌, refl, sym, ap, ◌∙◌, true, false, none, is_some, ℤ, pos, ◌==ℤ◌, ==ℤ_iff, Bool-cases,
  Option-cases, inl, inr, int_key, find, assign, find-assign, find-erase, arith,
}
use back_tester.Event.{Side}
use back_tester.PriceLevel.{nil, avl_remove}
use back_tester.PriceLevel.Balance.{IsAvl, avl_insert-IsAvl}
use back_tester.PriceLevel.RemoveBalance.{avl_remove-IsAvl}
use back_tester.PriceLevel.Inorder.{inorder, IsAscending, inorder-avl_insert}
use back_tester.PriceLevel.Remove.{inorder-avl_remove}
use back_tester.BookSide.{
  OrderEntry, Level, SideBook, empty_side, update_level, remove_level, leave_level, ensure_level,
  without_order, points_at,
}
use back_tester.BookSide.Keys.{
  mem, mem-insert_sorted, mem-drop_price, insert_sorted-IsAscending, drop_price-IsAscending,
}
use back_tester.BookSide.Extremes.{
  best_of, best_of-insert_sorted, best_of-drop_price, extreme-best_of,
}

-- The tree is balanced and its prices ascend, the hash map has exactly the prices of the tree, and the
-- best pointer is at the last price of the bids, at the first of the asks.
pub record IsOrdered (s : Side) (sb : SideBook) : Type 0 where
  pub balanced : IsAvl sb.tree
  pub ascending : IsAscending (inorder sb.tree)
  pub keyed : (p : ℤ) → is_some (find p sb.levels) ≡ mem p (inorder sb.tree)
  pub best_right : sb.best ≡ best_of s (inorder sb.tree)

pub empty_side-IsOrdered : (s : Side) → IsOrdered s empty_side
unfolding find
empty_side-IsOrdered s = record {
  balanced = tt;
  ascending = tt;
  keyed = λ p. refl;
  best_right = sym (extreme-best_of-nil s);
}
  where
    extreme-best_of-nil : (s : Side) → best_of s (inorder nil) ≡ none
    extreme-best_of-nil Side.buy = refl
    extreme-best_of-nil s = refl

-- A level that is there is overwritten.
overwritten-IsOrdered :
    (s : Side) (p : ℤ) (lv : Level) (sb : SideBook)
    → IsOrdered s sb
    → is_some (find p sb.levels) ≡ true
    → IsOrdered s (record sb { levels = assign p lv sb.levels })
overwritten-IsOrdered s p lv sb o there = record {
  balanced = o.balanced;
  ascending = o.ascending;
  keyed = λ q. ground (arith, o.keyed q, find-assign p q lv sb.levels, ==ℤ_iff p q);
  best_right = o.best_right;
}

pub update_level-IsOrdered :
    (s : Side) (p : ℤ) (f : Level → Level) (sb : SideBook)
    → IsOrdered s sb
    → IsOrdered s (update_level p f sb)
update_level-IsOrdered s p f sb o = elim (Option-cases (find p sb.levels)) [
  | inl absent ↦ rw (absent, update_level) o
  | inr (lv, there) ↦ rw (there, update_level) (overwritten-IsOrdered s p (f lv) sb o (rw there))
]

pub remove_level-IsOrdered :
    (s : Side) (p : ℤ) (sb : SideBook) → IsOrdered s sb → IsOrdered s (remove_level p s sb)
unfolding remove_level
remove_level-IsOrdered s p sb o = record {
  balanced = avl_remove-IsAvl sb.tree p o.balanced;
  ascending =
      rw (inorder-avl_remove sb.tree p o.ascending)
        (drop_price-IsAscending p (inorder sb.tree) o.ascending);
  keyed = λ q. rw (inorder-avl_remove sb.tree p o.ascending) (
      ground (
        arith,
        o.keyed q,
        find-erase p q sb.levels,
        mem-drop_price q p (inorder sb.tree) o.ascending,
      ));
  best_right = elim (Bool-cases (points_at p sb.best)) [
    | inl hit ↦ rw hit (extreme-best_of s (avl_remove sb.tree p))
    | inr miss ↦ rw miss (
        o.best_right
        ∙ sym (
            ap (best_of s) (inorder-avl_remove sb.tree p o.ascending)
            ∙ best_of-drop_price s p (inorder sb.tree) (rw o.best_right at miss)))
  ];
}

-- The level part of `destroy_order` keeps the structure of the side.
pub leave_level-IsOrdered :
    (oe : OrderEntry) (sb : SideBook) → IsOrdered oe.side sb → IsOrdered oe.side (leave_level oe sb)
unfolding leave_level
leave_level-IsOrdered oe sb o = elim (Option-cases (find oe.price sb.levels)) [
  | inl absent ↦ rw (absent, leave_level) o
  | inr (lv, there) ↦
      let kept = overwritten-IsOrdered oe.side oe.price (without_order oe lv) sb o (rw there) in
      rw (there, leave_level)
        (elim (Bool-cases ((without_order oe lv).order_count ==ℤ pos 0)) [
          | inl last ↦ rw last (remove_level-IsOrdered oe.side oe.price _ kept)
          | inr more ↦ rw more kept
        ])
]

-- The look-up of `add_order`, which makes a level where there is none, keeps the structure.
pub ensure_level-IsOrdered :
    (s : Side) (p : ℤ) (sb : SideBook) → IsOrdered s sb → IsOrdered s (ensure_level s p sb)
unfolding ensure_level
ensure_level-IsOrdered s p sb o = elim (Option-cases (find p sb.levels)) [
  | inr (lv, there) ↦ rw (there, ensure_level) o
  | inl absent ↦
      let fresh : mem p (inorder sb.tree) ≡ false = sym (o.keyed p) ∙ ap is_some absent in
      rw (absent, ensure_level)
        (record {
          balanced = avl_insert-IsAvl sb.tree p o.balanced;
          ascending =
              rw (inorder-avl_insert sb.tree p o.ascending)
                (insert_sorted-IsAscending p (inorder sb.tree) fresh o.ascending);
          keyed = λ q.
              rw (inorder-avl_insert sb.tree p o.ascending)
                (rw (find-assign, mem-insert_sorted) (ground (arith, o.keyed q)));
          best_right =
              rw (inorder-avl_insert sb.tree p o.ascending, o.best_right)
                (sym (best_of-insert_sorted s p (inorder sb.tree) o.ascending));
        })
]
