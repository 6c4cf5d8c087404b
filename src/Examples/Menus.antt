-- ===== src/Examples/Menus.antt =====
-- Prices, discounts, stock and tax on the small menu.
use antd_platform.Strings.{to_upper_case, trimmed}
use antd_platform.Prelude.{
  text_eq, ◌≤◌, ◌≡◌, ◌⊎◌, true, refl, none, some, ok, [], ◌∷◌, map, codes, sum_of,
}
use antd_platform.Prelude.Int.{pos, ◌≤ℤ◌}
use antd_platform.Money.{discount_amount_for}
use antd_platform.Money.Bounds.{discount_amount_for_bounds}
use antd_platform.Pricing.Cart.{
  unit_price, attached_to, check_groups, select_options, menu_item_of, resolve_line,
  ResolvedCartItem, price_cart_items,
}
use antd_platform.Pricing.Cart.Laws.{ArePriced, amount_of, price_cart_items-ArePriced}
use antd_platform.Pricing.Discounts.{given, find_discount, check_discount, resolve_discount}
use antd_platform.Pricing.Discounts.Laws.{MayApply, resolve_discount-MayApply}
use antd_platform.Pricing.Stock.{decrement_stock}
use antd_platform.Pricing.Stock.Laws.{after_sale, decrement_stock_lem}
use antd_platform.Examples.Fixtures.{acme, menu, one_burger, priced_burger, ten_percent, lunch}

priced :
    price_cart_items menu acme (one_burger ∷ one_burger ∷ [])
    ≡ ok (priced_burger ∷ priced_burger ∷ [], 2400)
unfolding price_cart_items resolve_line menu_item_of text_eq select_options check_groups attached_to
    unit_price trimmed
priced = refl

price_cart_items-ArePriced_example :
    ArePriced menu acme (one_burger ∷ one_burger ∷ []) (priced_burger ∷ priced_burger ∷ [])
    × (2400 ≡ sum_of amount_of (priced_burger ∷ priced_burger ∷ []))
price_cart_items-ArePriced_example =
    price_cart_items-ArePriced menu acme (one_burger ∷ one_burger ∷ [])
      (priced_burger ∷ priced_burger ∷ []) 2400 priced

abbrev exempt_burger : ResolvedCartItem
exempt_burger = record priced_burger { tax_exempt = true }

resolved :
    resolve_discount (lunch ∷ []) acme (codes "user") none (some (codes " lunch10 "))
    ≡ ok (some ten_percent)
unfolding resolve_discount trimmed check_discount find_discount text_eq to_upper_case
resolved = refl

resolve_discount-MayApply_example :
    MayApply
      (lunch ∷ [])
      acme
      (codes "user")
      (given none)
      (trimmed (some (codes " lunch10 ")))
      ten_percent
    × (resolve_discount (lunch ∷ []) acme (codes "user") none none ≡ ok none)
resolve_discount-MayApply_example =
    resolve_discount-MayApply (lunch ∷ []) acme (codes "user") none (some (codes " lunch10 "))
      ten_percent resolved

decrement_stock_lem_example :
    decrement_stock menu (priced_burger ∷ priced_burger ∷ [])
    ≡ record menu { items = map (after_sale (priced_burger ∷ priced_burger ∷ [])) menu.items }
decrement_stock_lem_example = decrement_stock_lem menu (priced_burger ∷ priced_burger ∷ [])

discount_amount_for_bounds_example :
    (discount_amount_for (some ten_percent) 2405 ≤ 2405)
    × ((pos 1 ≤ℤ pos 10) ⊎ (discount_amount_for (some ten_percent) 2405 ≡ 0))
discount_amount_for_bounds_example = discount_amount_for_bounds ten_percent 2405
