-- ===== src/Register/Snapshots/Laws.antt =====
-- A tab that is loaded into the cart and built again.
use antd_platform.Prelude.{
  ℕ, ◌+◌, ◌≡◌, inl, inr, refl, ap, ◌∙◌, arith, Bool, true, false, Bool-cases, Option, none, some,
  List, [], ◌∷◌, map, Text, text_eq, text_eq_iff, text_eq_refl, get_or, sum_of, All, any,
  if◌then◌else◌,
}
use antd_platform.Money.{Discount}
use antd_platform.Cart.{CartLine, line_cost, line_unit_price, modifier_adjustment_for}
use antd_platform.Cart.Totals.{cart_totals}
use antd_platform.Register.Snapshots.{
  line_id_for_item, line_from_item, last_entry, fired_at, order_item_of,
}

-- A line as it comes back: only the exemption from tax is not stored.
abbrev pub stored_line : CartLine → CartLine
stored_line l = record l { product = record l.product { tax_exempt = false } }

pub lines-order_items :
    (entries : List (Text × Option ℕ)) (ls : List CartLine)
    → map line_from_item (map (order_item_of entries) ls) ≡ map stored_line ls
unfolding line_from_item order_item_of line_id_for_item
lines-order_items entries [] = refl
lines-order_items entries (l ∷ ls) = ap (λ ks. stored_line l ∷ ks) (lines-order_items entries ls)

-- What the totals read of the lines is stored.
cost-stored_lines :
    (ls : List CartLine) → sum_of line_cost (map stored_line ls) ≡ sum_of line_cost ls
unfolding line_unit_price modifier_adjustment_for
cost-stored_lines [] = refl
cost-stored_lines (l ∷ ls) = ap (λ n. line_cost l + n) (cost-stored_lines ls)

quantity-stored_lines :
    (ls : List CartLine)
    → sum_of (λ l. l.quantity) (map stored_line ls) ≡ sum_of (λ l. l.quantity) ls
quantity-stored_lines [] = refl
quantity-stored_lines (l ∷ ls) = ap (λ n. l.quantity + n) (quantity-stored_lines ls)

pub totals-stored_lines :
    (ls : List CartLine) (d : Option Discount) (rate : ℕ)
    → cart_totals (map stored_line ls) d rate 0 false ≡ cart_totals ls d rate 0 false
unfolding cart_totals
totals-stored_lines ls d rate = rw (cost-stored_lines ls, quantity-stored_lines ls)

-- The entries that a loaded tab has for its lines.
abbrev pub entries_of : (Text → Option ℕ) → List CartLine → List (Text × Option ℕ)
entries_of g ls = map (λ l. (l.id, g l.id)) ls

abbrev pub has_line : Text → List CartLine → Bool
has_line id = any (λ l. text_eq l.id id)

last_entry-entries_of :
    (g : Text → Option ℕ) (id : Text) (ls : List CartLine)
    → last_entry (entries_of g ls) id ≡ (if has_line id ls then some (g id) else none)
unfolding last_entry
last_entry-entries_of g id [] = refl
last_entry-entries_of g id (l ∷ ls) = elim (Bool-cases (text_eq l.id id)) [
  | inl e ↦
      let same : g l.id ≡ g id = ap g ((text_eq_iff l.id id).0 e) in
      ground (arith, last_entry-entries_of g id ls)
  | inr e ↦ ground (arith, last_entry-entries_of g id ls)
]

abbrev pub AreIn : List CartLine → List CartLine → Type 0
AreIn whole = All (λ l. has_line l.id whole ≡ true)

AreIn-cons : (x : CartLine) (whole ls : List CartLine) → AreIn whole ls → AreIn (x ∷ whole) ls
AreIn-cons x whole [] a = tt
AreIn-cons x whole (l ∷ ls) (a, more) = (ground arith, AreIn-cons x whole ls more)

pub AreIn-self : (ls : List CartLine) → AreIn ls ls
AreIn-self [] = tt
AreIn-self (l ∷ ls) = (rw (text_eq_refl l.id), AreIn-cons l ls ls (AreIn-self ls))

pub entries-order_items :
    (g : List (Text × Option ℕ)) (ls : List CartLine)
    → map (λ i. (line_id_for_item i, i.fired_at)) (map (order_item_of g) ls)
      ≡ entries_of (fired_at g) ls
unfolding order_item_of line_id_for_item
entries-order_items g [] = refl
entries-order_items g (l ∷ ls) = ap (λ es. (l.id, fired_at g l.id) ∷ es) (entries-order_items g ls)

pub items_again :
    (g : List (Text × Option ℕ)) (whole ls : List CartLine)
    → AreIn whole ls
    → map (order_item_of (entries_of (fired_at g) whole)) (map stored_line ls)
      ≡ map (order_item_of g) ls
unfolding order_item_of
items_again g whole [] a = refl
items_again g whole (l ∷ ls) (a, more) =
    let found : last_entry (entries_of (fired_at g) whole) l.id ≡ some (fired_at g l.id) =
      last_entry-entries_of (fired_at g) l.id whole ∙ rw a in
    let e : fired_at (entries_of (fired_at g) whole) l.id ≡ fired_at g l.id =
      unfold fired_at in ap (λ t. get_or t none) found in
    rw (e, items_again g whole ls more)
