-- ===== src/Pricing/Stock/Laws.antt =====
-- What selling does to the stock.
use mathlib.Core.Path.{ap₂}
use antd_platform.Prelude.{
  sym, ap, ℕ, ◌+◌, ◌≡◌, refl, arith, Option, none, some, List, [], ◌∷◌, map, Text, text_eq, sum_of,
  if◌then◌else◌, ◌∙◌, Bool-cases, inl, inr,
}
use antd_platform.Pricing.Cart.{MenuItem, Menu, ResolvedCartItem}
use antd_platform.Pricing.Stock.{less, take_stock, decrement_stock}

-- How many units of an item are sold.
abbrev pub sold : Text → List ResolvedCartItem → ℕ
sold id = sum_of (λ i. if text_eq id i.menu_item_id then i.quantity else 0)

-- An item after a sale: the same, with so many units less if it is tracked.
abbrev pub after_sale : List ResolvedCartItem → MenuItem → MenuItem
after_sale items m = record m { stock_quantity = less m.stock_quantity (sold m.id items) }

less-less : (s : Option ℕ) (a b : ℕ) → less (less s a) b ≡ less s (a + b)
less-less none a b = refl
less-less (some s) a b = ground arith

after_take :
    (i : ResolvedCartItem) (items : List ResolvedCartItem) (m : MenuItem)
    → after_sale items (take_stock i.menu_item_id i.quantity m) ≡ after_sale (i ∷ items) m
unfolding take_stock
after_take i items m = elim (Bool-cases (text_eq m.id i.menu_item_id)) [
  | inl e ↦ rw e (
      ap (λ s. record m { stock_quantity = s })
        (less-less m.stock_quantity i.quantity (sold m.id items)))
  | inr e ↦ rw e (ap (λ n. record m { stock_quantity = less m.stock_quantity n }) (omega arith))
]

less-zero : (s : Option ℕ) → less s 0 ≡ s
less-zero none = refl
less-zero (some s) = ap some (omega arith)

map-unsold : (ms : List MenuItem) → map (after_sale []) ms ≡ ms
map-unsold [] = refl
map-unsold (m ∷ ms) =
    ap₂ ◌∷◌ (ap (λ s. record m { stock_quantity = s }) (less-zero m.stock_quantity)) (map-unsold ms)

map-after_take :
    (i : ResolvedCartItem) (items : List ResolvedCartItem) (ms : List MenuItem)
    → map (after_sale items) (map (take_stock i.menu_item_id i.quantity) ms)
      ≡ map (after_sale (i ∷ items)) ms
map-after_take i items [] = refl
map-after_take i items (m ∷ ms) = ap₂ ◌∷◌ (after_take i items m) (map-after_take i items ms)

-- A sale takes from each tracked item just the units that were sold of it, over all the lines, and stops
-- at zero; untracked items stay untracked, and nothing else of the menu changes.
pub decrement_stock_lem :
    (menu : Menu) (items : List ResolvedCartItem)
    → decrement_stock menu items ≡ record menu { items = map (after_sale items) menu.items }
unfolding decrement_stock
decrement_stock_lem menu [] = ap (λ ms. record menu { items = ms }) (sym (map-unsold menu.items))
decrement_stock_lem menu (i ∷ items) =
    decrement_stock_lem
      (record menu { items = map (take_stock i.menu_item_id i.quantity) menu.items }) items
    ∙ ap (λ ms. record menu { items = ms }) (map-after_take i items menu.items)
