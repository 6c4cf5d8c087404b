-- ===== src/Examples/Carts.antt =====
-- A register's cart: a second coffee, a check split in three, and what goes to the server.
use antd_platform.Prelude.{
  ◌≡◌, ◌≢◌, arith, Bool, true, false, none, some, List, [], ◌∷◌, Text, codes, length, sum_of, leb,
  All,
}
use antd_platform.Cart.{CartLine, Product, line_cost}
use antd_platform.Cart.Lines.{add_line_with_options}
use antd_platform.Cart.Lines.Added.{Added, new_line, DistinctBy}
use antd_platform.Cart.Split.{split_lines}
use antd_platform.Cart.Split.Laws.{bill}
use antd_platform.Cart.Split.Whole.{split_lines-bill}
use antd_platform.Cart.Delta.{lines_delta}
use antd_platform.Cart.Delta.Laws.{OneSent, lines_delta-add}

-- Texts by their first code units.
abbrev earlier : Text → Text → Bool
earlier [] t = true
earlier (c ∷ cs) [] = false
earlier (c ∷ cs) (d ∷ ds) = leb c d

abbrev coffee : Product
coffee = record { id = codes "coffee"; name = codes "Coffee"; price = 1000; tax_exempt = false }

abbrev coffee_line : CartLine
coffee_line = record {
  id = codes "l1";
  product = coffee;
  quantity = 1;
  notes = none;
  course = none;
  selected_modifiers = [];
  price_override = none;
  price_override_reason = none;
}

abbrev tea_line : CartLine
tea_line = record coffee_line { id = codes "l2"; product = record coffee { id = codes "tea" } }

abbrev cart : List CartLine
cart = coffee_line ∷ tea_line ∷ []

distinct_ids : DistinctBy (λ l. l.id) cart
distinct_ids = (((λ e. ground arith), tt), (tt, tt))

fresh : All (λ l. l.id ≢ codes "l3") cart
fresh = ((λ e. ground arith), ((λ e. ground arith), tt))

lines_delta-add_example :
    OneSent earlier
      (new_line earlier (codes "l3") coffee 2 none none [])
      2
      cart
      (lines_delta cart (add_line_with_options earlier (codes "l3") cart coffee 2 none none []))
    × (lines_delta cart cart ≡ [])
lines_delta-add_example =
    lines_delta-add earlier (codes "l3") cart coffee 2 none none [] distinct_ids fresh (omega arith)

-- The coffee is shared by three checks, the tea goes to the second.
abbrev assignment : List (Text × List Bool)
assignment = (codes "l1", true ∷ true ∷ true ∷ []) ∷ (codes "l2", false ∷ true ∷ []) ∷ []

split_lines-bill_example :
    (checks : List (List CartLine)) × (split_lines (λ id i. i ∷ id) cart assignment 3 ≡ some checks)
    × (length checks ≡ 3)
    × (bill checks ≡ sum_of line_cost cart)
split_lines-bill_example =
    split_lines-bill (λ id i. i ∷ id) cart assignment 3 (omega arith)
      (omega arith, (omega arith, tt))
