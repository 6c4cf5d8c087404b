-- ===== src/Cart/Split/Whole.antt =====
-- Splitting a cart succeeds, and keeps the bill.
use antd_platform.Prelude.{
  ℕ, zero, suc, ◌+◌, ◌-◌, ◌*◌, ◌/◌, ◌≤◌, ◌<◌, ◌≡◌, refl, sym, subst, ◌∙◌, arith, Bool, true, false,
  some, List, [], ◌∷◌, Text, if◌then◌else◌, ltb, ◌==◌, length, sum_of, inl, inr, Bool-cases,
  replicate, All, text_eq,
}
use antd_platform.Cart.{CartLine, line_unit_price, line_cost}
use antd_platform.Cart.Split.{
  selected_from, flags_of, cost_fragment, share_cost, share_units, split_line, split_onto,
  split_lines,
}
use antd_platform.Cart.Split.Laws.{
  bill, bill-push_at, push_at-some, bill-split_onto, bill-split_line,
}

-- Every selected check exists.
abbrev Within : ℕ → List ℕ → Type 0
Within n = All (λ check. check < n)

selected_from-Within :
    (n i : ℕ) (flags : List Bool) → i + length flags ≤ n → Within n (selected_from i flags)
unfolding selected_from
selected_from-Within n i [] h = tt
selected_from-Within n i (true ∷ flags) h =
    (omega arith, selected_from-Within n (i + 1) flags (omega arith))
selected_from-Within n i (false ∷ flags) h = selected_from-Within n (i + 1) flags (omega arith)

share_cost-some :
    (new_id : ℕ → Text) (line : CartLine) (share remainder i : ℕ) (checks : List ℕ)
    (gs : List (List CartLine))
    → Within (length gs) checks
    → (gs' : List (List CartLine)) × (share_cost new_id line share remainder i checks gs ≡ some gs')
unfolding share_cost
share_cost-some new_id line share remainder i [] gs w = (gs, refl)
share_cost-some new_id line share remainder i (check ∷ checks) gs (w, ws) =
    let piece = cost_fragment line (new_id i) (share + (if ltb i remainder then 1 else 0)) in
    let (next, e) = push_at-some check piece gs w in
    let len = (bill-push_at check piece gs next e).1 in
    let (gs', f) =
      share_cost-some new_id line share remainder (i + 1) checks next
        (subst (λ n. Within n checks) (sym len) ws) in
    (gs', rw (share_cost, e) f)

share_units-some :
    (new_id : ℕ → Text) (line : CartLine) (base remainder i : ℕ) (checks : List ℕ)
    (gs : List (List CartLine))
    → Within (length gs) checks
    → (gs' : List (List CartLine)) × (share_units new_id line base remainder i checks gs ≡ some gs')
unfolding share_units
share_units-some new_id line base remainder i [] gs w = (gs, refl)
share_units-some new_id line base remainder i (check ∷ checks) gs (w, ws) =
    let quantity : ℕ = base + (if ltb i remainder then 1 else 0) in
    let piece : CartLine = record line { id = new_id i; quantity = quantity } in
    let (next, e) = push_at-some check piece gs w in
    let len = (bill-push_at check piece gs next e).1 in
    elim (Bool-cases (ltb 0 quantity)) [
      | inl t ↦
          let (gs', f) =
            share_units-some new_id line base remainder (i + 1) checks next
              (subst (λ n. Within n checks) (sym len) ws) in
          (gs', ground arith)
      | inr t ↦
          let (gs', f) = share_units-some new_id line base remainder (i + 1) checks gs ws in
          (gs', ground arith)
    ]

split_line-some :
    (new_id : ℕ → Text) (line : CartLine) (checks : List ℕ) (gs : List (List CartLine))
    → 0 < length gs
    → Within (length gs) checks
    → (gs' : List (List CartLine)) × (split_line new_id line checks gs ≡ some gs')
unfolding split_line
split_line-some new_id line [] gs positive w = push_at-some 0 line gs positive
split_line-some new_id line (c ∷ cs) gs positive w =
    let n : ℕ = length (c ∷ cs) in
    let base : ℕ = line.quantity / n in
    let total : ℕ = line_unit_price line * line.quantity in
    let (by_cost, e) =
      share_cost-some new_id line (total / n) (total - total / n * n) 0 (c ∷ cs) gs w in
    let (by_units, f) =
      share_units-some new_id line base (line.quantity - base * n) 0 (c ∷ cs) gs w in
    elim (Bool-cases (base == 0)) [
      | inl t ↦ (by_cost, ground arith)
      | inr t ↦ (by_units, ground arith)
    ]

-- No line has more flags than there are checks.
abbrev pub Fits : ℕ → List (Text × List Bool) → Type 0
Fits n = All (λ entry. length entry.1 ≤ n)

flags_of-le :
    (n : ℕ) (assignment : List (Text × List Bool)) (id : Text)
    → Fits n assignment
    → length (flags_of assignment id) ≤ n
unfolding flags_of
flags_of-le n [] id h = omega arith
flags_of-le n ((k, flags) ∷ rest) id (h, hs) = elim (Bool-cases (text_eq k id)) [
  | inl e ↦ rw (flags_of, e) h
  | inr e ↦ rw (flags_of, e) (flags_of-le n rest id hs)
]

split_onto-some :
    (new_id : Text → ℕ → Text) (lines : List CartLine) (assignment : List (Text × List Bool))
    (gs : List (List CartLine))
    → 0 < length gs
    → Fits (length gs) assignment
    → (gs' : List (List CartLine)) × (split_onto new_id lines assignment gs ≡ some gs')
unfolding split_onto
split_onto-some new_id [] assignment gs positive fits = (gs, refl)
split_onto-some new_id (line ∷ lines) assignment gs positive fits =
    let flags = flags_of assignment line.id in
    let checks = selected_from 0 flags in
    let within =
      selected_from-Within (length gs) 0 flags
        (omega (arith, flags_of-le (length gs) assignment line.id fits)) in
    let (next, e) = split_line-some (new_id line.id) line checks gs positive within in
    let len = (bill-split_line (new_id line.id) line checks gs next e).1 in
    let (gs', f) =
      split_onto-some new_id lines assignment next (subst (λ n. 0 < n) (sym len) positive)
        (subst (λ n. Fits n assignment) (sym len) fits) in
    (gs', rw (split_onto, e) f)

length-replicate :
    (n : ℕ) → (length (replicate {A = List CartLine} n []) ≡ n) × (bill (replicate n []) ≡ 0)
length-replicate zero = (refl, refl)
length-replicate (suc n) = let (a, b) = length-replicate n in (omega (arith, a), omega (arith, b))

-- A cart can be divided into any number of checks, one at least, where no line has more flags than
-- there are checks; there are then exactly so many checks, and together they cost what the cart
-- costs, to the cent, whether lines are shared by units or by cost.
pub split_lines-bill :
    (new_id : Text → ℕ → Text) (lines : List CartLine) (assignment : List (Text × List Bool))
    (check_count : ℕ)
    → 0 < check_count
    → Fits check_count assignment
    → (checks : List (List CartLine)) × (split_lines new_id lines assignment check_count
        ≡ some checks)
      × (length checks ≡ check_count)
      × (bill checks ≡ sum_of line_cost lines)
unfolding split_lines
split_lines-bill new_id lines assignment check_count positive fits =
    let (size, free) = length-replicate check_count in
    let (checks, e) =
      split_onto-some new_id lines assignment (replicate check_count [])
        (subst (λ n. 0 < n) (sym size) positive) (subst (λ n. Fits n assignment) (sym size) fits) in
    let (cost, len) = bill-split_onto new_id lines assignment (replicate check_count []) checks e in
    (checks, e, len ∙ size, omega (arith, cost, free))
