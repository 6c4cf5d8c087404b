-- ===== src/Cart/Split.antt =====
-- cartOps.ts, `splitLines`: the cart divided into checks. A check that a flag names and that does not
-- exist is a fault (`none`), as is the first check where there is no check.
pub mod Laws
pub mod Whole
use antd_platform.Prelude.{
  ℕ, zero, suc, ◌+◌, ◌-◌, ◌*◌, ◌/◌, Bool, true, false, Option, none, some, List, [], ◌∷◌, ◌++◌, map,
  codes, Text, text_eq, if◌then◌else◌, ltb, ◌==◌, length, replicate,
}
use antd_platform.Cart.{CartLine, line_unit_price}

-- `groups[i].push(line)`.
unfoldable pub push_at : ℕ → CartLine → List (List CartLine) → Option (List (List CartLine))
push_at i line [] = none
push_at zero line (g ∷ gs) = some ((g ++ (line ∷ [])) ∷ gs)
push_at (suc i) line (g ∷ gs) = elim (push_at i line gs) [ none ↦ none | some gs' ↦ some (g ∷ gs') ]

-- `flags.map((on, i) => on ? i : -1).filter((i) => i >= 0)`.
unfoldable pub selected_from : ℕ → List Bool → List ℕ
selected_from i [] = []
selected_from i (on ∷ flags) =
    let rest = selected_from (i + 1) flags in if on then i ∷ rest else rest

-- `assignment[id]`, no flags if it is absent.
unfoldable pub flags_of : List (Text × List Bool) → Text → List Bool
flags_of [] id = []
flags_of ((k, flags) ∷ rest) id = if text_eq k id then flags else flags_of rest id

-- A fragment of a line whose cost is shared: one unit at an overriding price.
abbrev pub cost_fragment : CartLine → Text → ℕ → CartLine
cost_fragment line new_id price = record line {
  id = new_id;
  quantity = 1;
  price_override = some price;
  price_override_reason = some (codes "Split check share");
}

-- The first `remainder` checks of the selection get one cent more.
unfoldable pub share_cost :
    (ℕ → Text)
    → CartLine
    → ℕ
    → ℕ
    → ℕ
    → List ℕ
    → List (List CartLine)
    → Option (List (List CartLine))
share_cost new_id line share remainder i [] groups = some groups
share_cost new_id line share remainder i (check ∷ checks) groups =
    elim (push_at check (cost_fragment line (new_id i) (share + (if ltb i remainder then 1 else 0)))
      groups) [
        | none ↦ none
        | some groups' ↦ share_cost new_id line share remainder (i + 1) checks groups'
      ]

-- The first `remainder` checks get one unit more.
unfoldable pub share_units :
    (ℕ → Text)
    → CartLine
    → ℕ
    → ℕ
    → ℕ
    → List ℕ
    → List (List CartLine)
    → Option (List (List CartLine))
share_units new_id line base remainder i [] groups = some groups
share_units new_id line base remainder i (check ∷ checks) groups =
    let quantity = base + (if ltb i remainder then 1 else 0) in
    elim (if ltb 0 quantity
      then push_at check (record line { id = new_id i; quantity = quantity }) groups
      else some groups) [
        | none ↦ none
        | some groups' ↦ share_units new_id line base remainder (i + 1) checks groups'
      ]

unfoldable pub split_line :
    (ℕ → Text) → CartLine → List ℕ → List (List CartLine) → Option (List (List CartLine))
unfolding share_cost share_units
split_line new_id line [] groups = push_at 0 line groups
split_line new_id line (c ∷ cs) groups =
    let selected = c ∷ cs in
    let n = length selected in
    let base = line.quantity / n in
    let total_cost = line_unit_price line * line.quantity in
    let share = total_cost / n in
    if base == 0
    then share_cost new_id line share (total_cost - share * n) 0 selected groups
    else share_units new_id line base (line.quantity - base * n) 0 selected groups

-- The ids of the fragments of a line come from newId: `new_id line i` for its i-th fragment.
unfoldable pub split_onto :
    (Text → ℕ → Text)
    → List CartLine
    → List (Text × List Bool)
    → List (List CartLine)
    → Option (List (List CartLine))
unfolding split_line
split_onto new_id [] assignment groups = some groups
split_onto new_id (line ∷ lines) assignment groups =
    elim (split_line (new_id line.id) line (selected_from 0 (flags_of assignment line.id)) groups) [
      | none ↦ none
      | some groups' ↦ split_onto new_id lines assignment groups'
    ]

unfoldable pub split_lines :
    (Text → ℕ → Text) → List CartLine → List (Text × List Bool) → ℕ → Option (List (List CartLine))
unfolding split_onto
split_lines new_id lines assignment check_count =
    split_onto new_id lines assignment (replicate check_count [])
