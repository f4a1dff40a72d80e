-- ===== src/Tests/Structures.antt =====
-- The AVL tree of src/order_book/PriceLevel.cpp, and a side of src/order_book/LimitOrderBook.cpp, on
-- small inputs.
use back_tester.Prelude.{◌≡◌, [], ◌∷◌, pos, arith}
use back_tester.Event.{Side}
use back_tester.PriceLevel.{Tree, nil, node, avl_insert, avl_remove}
use back_tester.PriceLevel.Balance.{IsAvl, avl_insert-IsAvl}
use back_tester.PriceLevel.RemoveBalance.{avl_remove-IsAvl}
use back_tester.PriceLevel.Inorder.{inorder, insert_sorted, inorder-avl_insert}
use back_tester.PriceLevel.Remove.{drop_price, inorder-avl_remove}
use back_tester.BookSide.{OrderEntry}

abbrev three : Tree
three = node (node nil (pos 1) 1 nil) (pos 2) 2 (node nil (pos 3) 1 nil)

avl_insert-IsAvl_example : IsAvl (avl_insert three (pos 4))
avl_insert-IsAvl_example = avl_insert-IsAvl three (pos 4) (ground arith)

avl_remove-IsAvl_example : IsAvl (avl_remove three (pos 2))
avl_remove-IsAvl_example = avl_remove-IsAvl three (pos 2) (ground arith)

inorder-avl_insert_example :
    inorder (avl_insert three (pos 4)) ≡ insert_sorted (pos 4) (pos 1 ∷ pos 2 ∷ pos 3 ∷ [])
inorder-avl_insert_example = inorder-avl_insert three (pos 4) (ground arith)

inorder-avl_remove_example :
    inorder (avl_remove three (pos 2)) ≡ drop_price (pos 2) (pos 1 ∷ pos 2 ∷ pos 3 ∷ [])
inorder-avl_remove_example = inorder-avl_remove three (pos 2) (ground arith)

abbrev an_order : OrderEntry
an_order = record {
  order_id = 1;
  side = Side.buy;
  quantity = 5;
  price = pos 100;
  entry_time = pos 0;
  last_update = pos 0;
}
