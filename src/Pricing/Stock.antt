-- ===== src/Pricing/Stock.antt =====
-- order-pricing.service.ts, `decrementStock`: what was sold leaves the stock of the tracked items.
pub mod Laws
use antd_platform.Prelude.{
  ℕ, ◌-◌, Option, none, some, List, [], ◌∷◌, map, Text, text_eq, if◌then◌else◌,
}
use antd_platform.Pricing.Cart.{MenuItem, Menu, ResolvedCartItem}

-- `GREATEST(stock - n, 0)` where the stock is not null.
abbrev pub less : Option ℕ → ℕ → Option ℕ
less none n = none
less (some stock) n = some (stock - n)

unfoldable pub take_stock : Text → ℕ → MenuItem → MenuItem
take_stock id quantity m =
    if text_eq m.id id then record m { stock_quantity = less m.stock_quantity quantity } else m

unfoldable pub decrement_stock : Menu → List ResolvedCartItem → Menu
unfolding take_stock
decrement_stock menu [] = menu
decrement_stock menu (i ∷ items) =
    decrement_stock (record menu { items = map (take_stock i.menu_item_id i.quantity) menu.items })
      items
