-- ===== src/Pricing/Cart/Laws.antt =====
-- What a priced cart is: every line comes from the organization's own live menu, every modifier group
-- is respected, and the subtotal is the sum over the lines.
use antd_platform.Prelude.{
  filter, ℕ, ◌+◌, ◌*◌, ◌≡◌, refl, subst, arith, List, [], ◌∷◌, Text, ok, Result-cases, Option-cases,
  inl, inr, All, sum_of, map, is_some, get_or,
}
use antd_platform.Pricing.Cart.{
  Menu, MenuItem, ModifierOption, LineDto, ResolvedCartItem, menu_item_of, attached_to,
  select_options, check_groups, snapshot, unit_price, resolve_line, price_lines, price_cart_items,
  taxable_subtotal,
}
use antd_platform.Pricing.Cart.Options.{
  Offers, IsOnSale, menu_item_of-inv, select_options-inv, Respects, check_groups-Respects,
}

-- How a line was priced.
pub record IsPriced (menu : Menu) (org : Text) (line : LineDto) (item : ResolvedCartItem)
    : Type 0 where
  pub product : MenuItem
  pub selected : List ModifierOption
  pub product_asked : product.id ≡ line.menu_item_id
  pub product_listed : IsOnSale menu org product
  pub options_asked : map (λ (o : ModifierOption). o.id) selected ≡ line.option_ids
  pub options_offered : All (Offers menu org (attached_to menu line.menu_item_id)) selected
  pub groups_respected : All (Respects selected) (attached_to menu line.menu_item_id)
  pub same_item : item.menu_item_id ≡ line.menu_item_id
  pub same_quantity : item.quantity ≡ line.quantity
  pub price_is :
      item.price
      ≡ get_or line.price_override
          (product.price + sum_of (λ (o : ModifierOption). o.price_adjustment) selected)
  pub options_kept : item.modifiers ≡ map snapshot selected
  pub exemption : item.tax_exempt ≡ product.tax_exempt
  pub override_marked : item.price_overridden ≡ is_some line.price_override

resolve_line-IsPriced :
    (menu : Menu) (org : Text) (line : LineDto) (item : ResolvedCartItem)
    → resolve_line menu org line ≡ ok item
    → IsPriced menu org line item
unfolding resolve_line unit_price
resolve_line-IsPriced menu org line item h =
    elim (Option-cases (menu_item_of menu org line.menu_item_id)) [
      | inl e ↦ absurd (ground arith)
      | inr (m, e) ↦
          elim (Result-cases
            (select_options menu org (attached_to menu line.menu_item_id) line.option_ids)) [
              | inr (x, f) ↦ absurd (ground arith)
              | inl (os, f) ↦
                  elim (Result-cases (check_groups os (attached_to menu line.menu_item_id))) [
                    | inr (x, g) ↦ absurd (ground arith)
                    | inl (tt, g) ↦
                        let (same, listed) = menu_item_of-inv menu org line.menu_item_id m e in
                        let (asked, offers) = select_options-inv menu org _ line.option_ids os f in
                        record {
                          product = m;
                          selected = os;
                          product_asked = same;
                          product_listed = listed;
                          options_asked = asked;
                          options_offered = offers;
                          groups_respected = check_groups-Respects os _ (cc);
                          same_item = ground arith;
                          same_quantity = ground arith;
                          price_is = ground arith;
                          options_kept = ground arith;
                          exemption = ground arith;
                          override_marked = ground arith;
                        }
                  ]
            ]
    ]

-- A cart is priced line by line.
pub data ArePriced (menu : Menu) (org : Text) : List LineDto → List ResolvedCartItem → Type 0 where
  none_left : ArePriced menu org [] []
  one_more :
      {line : LineDto} {item : ResolvedCartItem} {lines : List LineDto}
      {items : List ResolvedCartItem}
      → IsPriced menu org line item
      → ArePriced menu org lines items
      → ArePriced menu org (line ∷ lines) (item ∷ items)

abbrev pub amount_of : ResolvedCartItem → ℕ
amount_of i = i.price * i.quantity

price_lines-ArePriced :
    (menu : Menu) (org : Text) (start : ℕ) (lines : List LineDto) (items : List ResolvedCartItem)
    (subtotal : ℕ)
    → price_lines menu org start lines ≡ ok (items, subtotal)
    → ArePriced menu org lines items × (subtotal ≡ start + sum_of amount_of items)
unfolding price_lines
price_lines-ArePriced menu org start [] items subtotal h =
    let e : [] ≡ items = ground arith in
    let same : start ≡ subtotal = ground arith in
    subst (λ is. ArePriced menu org [] is × (subtotal ≡ start + sum_of amount_of is)) e
      (none_left, omega arith)
price_lines-ArePriced menu org start (line ∷ lines) items subtotal h =
    elim (Result-cases (resolve_line menu org line)) [
      | inr (x, f) ↦ absurd (ground arith)
      | inl (item, f) ↦
          elim (Result-cases (price_lines menu org (start + item.price * item.quantity) lines)) [
            | inr (x, g) ↦ absurd (ground arith)
            | inl ((rest, total), g) ↦
                let whole : item ∷ rest ≡ items = ground arith in
                let same : total ≡ subtotal = ground arith in
                let (priced, sum) =
                  price_lines-ArePriced menu org (start + item.price * item.quantity) lines rest
                    total g in
                subst
                  (λ is.
                    ArePriced menu org (line ∷ lines) is × (subtotal ≡ start + sum_of amount_of is))
                  whole (one_more (resolve_line-IsPriced menu org line item f) priced, omega arith)
          ]
    ]

-- When a cart is priced, each line is of the asked row of the menu, which is the organization's, live and
-- available; its options are the requested rows of the menu, the organization's, live and in groups attached
-- to the item, and respect every group; its price is the override, or else the menu price with the
-- adjustments; and the subtotal adds up price times quantity over the lines.
pub price_cart_items-ArePriced :
    (menu : Menu) (org : Text) (lines : List LineDto) (items : List ResolvedCartItem) (subtotal : ℕ)
    → price_cart_items menu org lines ≡ ok (items, subtotal)
    → ArePriced menu org lines items × (subtotal ≡ sum_of amount_of items)
unfolding price_cart_items
price_cart_items-ArePriced menu org lines items subtotal h =
    let (priced, sum) = price_lines-ArePriced menu org 0 lines items subtotal h in
    (priced, omega arith)

-- The taxable part and what the exempt lines cost make up the subtotal.
pub taxable_subtotal-split :
    (items : List ResolvedCartItem)
    → taxable_subtotal items + sum_of amount_of (filter (λ i. i.tax_exempt) items)
      ≡ sum_of amount_of items
unfolding taxable_subtotal
taxable_subtotal-split [] = refl
taxable_subtotal-split (i ∷ items) = ground (arith, taxable_subtotal-split items)
