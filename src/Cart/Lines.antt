-- ===== src/Cart/Lines.antt =====
-- cartOps.ts: the transitions of the cart's lines.
pub mod Added
use antd_platform.Prelude.{
  ℕ, zero, suc, ◌+◌, Bool, true, false, ◌&&◌, not, Option, none, some, List, [], ◌∷◌, ◌++◌, map,
  Text, text_eq, if◌then◌else◌, filter, find, any, sum_of, is_empty,
}
use antd_platform.Prelude.Int.{ℤ, pos, negsuc}
use antd_platform.Cart.{CartLine, Product, SelectedModifier}
use antd_platform.Cart.Signature.{merge_signature, same_signature}

-- The line with the id gets the change; the others stay.
unfoldable pub edit_line : Text → (CartLine → CartLine) → List CartLine → List CartLine
edit_line id f [] = []
edit_line id f (l ∷ ls) = (if text_eq l.id id then f l else l) ∷ edit_line id f ls

unfoldable pub remove_line_from : List CartLine → Text → List CartLine
remove_line_from lines id = filter (λ l. not (text_eq l.id id)) lines

unfoldable pub set_line_price_override :
    List CartLine → Text → Option ℕ → Option Text → List CartLine
unfolding edit_line
set_line_price_override lines id price reason =
    edit_line id (λ l. record l { price_override = price; price_override_reason = reason }) lines

-- A quantity of zero or less removes the line.
unfoldable pub set_line_quantity : List CartLine → Text → ℤ → List CartLine
unfolding edit_line remove_line_from
set_line_quantity lines id (pos zero) = remove_line_from lines id
set_line_quantity lines id (pos (suc n)) = edit_line id (λ l. record l { quantity = suc n }) lines
set_line_quantity lines id (negsuc n) = remove_line_from lines id

module _ (le : Text → Text → Bool) where
  -- `findIndex` and the `map` that follows it: the first line with the signature absorbs the quantity.
  unfoldable pub absorb : CartLine → ℕ → List CartLine → Option (List CartLine)
  absorb incoming quantity [] = none
  absorb incoming quantity (l ∷ ls) =
      if same_signature le l incoming
      then some (record l { quantity = l.quantity + quantity } ∷ ls)
      else (elim (absorb incoming quantity ls) [ none ↦ none | some ls' ↦ some (l ∷ ls') ])

  unfoldable pub add_line_with_options :
      Text
      → List CartLine
      → Product
      → ℕ
      → Option Text
      → Option ℕ
      → List SelectedModifier
      → List CartLine
  add_line_with_options new_id lines product quantity notes course modifiers =
      let incoming : CartLine = record {
        id = new_id;
        product = product;
        quantity = quantity;
        notes = notes;
        course = course;
        selected_modifiers = modifiers;
        price_override = none;
        price_override_reason = none;
      } in
      elim (absorb incoming quantity lines) [ none ↦ lines ++ (incoming ∷ []) | some ls ↦ ls ]

  unfoldable pub add_line : Text → List CartLine → Product → Option ℕ → List CartLine
  unfolding add_line_with_options
  add_line new_id lines product course = add_line_with_options new_id lines product 1 none course []

  -- A line other than the target with the target's signature.
  abbrev pub is_twin : Text → CartLine → CartLine → Bool
  is_twin id target l = not (text_eq l.id id) && same_signature le l target

  -- The twins of an edited line are folded into it, which keeps its id.
  unfoldable pub fold_twins : Text → CartLine → List CartLine → List CartLine
  unfolding edit_line
  fold_twins id target edited =
      let twins = filter (is_twin id target) edited in
      let absorbed = sum_of (λ l. l.quantity) twins in
      if is_empty twins
      then edited
      else edit_line id (λ l. record l { quantity = l.quantity + absorbed })
          (filter (λ l. not (any (λ t. text_eq t.id l.id) twins)) edited)

  unfoldable pub update_line_details :
      List CartLine → Text → ℤ → Option Text → Option ℕ → List SelectedModifier → List CartLine
  unfolding edit_line remove_line_from fold_twins
  update_line_details lines id (pos zero) notes course modifiers = remove_line_from lines id
  update_line_details lines id (pos (suc n)) notes course modifiers =
      let edited =
        edit_line id
          (λ l. record l {
            quantity = suc n;
            notes = notes;
            course = course;
            selected_modifiers = modifiers;
          })
          lines in
      elim (find (λ l. text_eq l.id id) edited) [
        | none ↦ edited
        | some target ↦ fold_twins id target edited
      ]
  update_line_details lines id (negsuc n) notes course modifiers = remove_line_from lines id
