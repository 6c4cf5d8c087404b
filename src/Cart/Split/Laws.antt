-- ===== src/Cart/Split/Laws.antt =====
-- Splitting a cart keeps the bill.
use antd_platform.Prelude.{
  ℕ, zero, suc, ◌+◌, ◌-◌, ◌*◌, ◌/◌, ◌≤◌, ◌<◌, ◌≡◌, refl, sym, ap, subst, ◌∙◌, arith, Bool, some,
  List, [], ◌∷◌, ◌++◌, Text, if◌then◌else◌, ltb, ◌==◌, length, sum_of, sum_of-append, Option-cases,
  inl, inr, Bool-cases,
}
use native.Mathlib.Nat.{div-mul-le_self, lt-div-mul-add}
use antd_platform.Cart.{CartLine, line_unit_price, line_cost}
use antd_platform.Cart.Split.{
  push_at, selected_from, flags_of, cost_fragment, share_cost, share_units, split_line, split_onto,
}

-- What all the checks cost together.
abbrev pub bill : List (List CartLine) → ℕ
bill = sum_of (sum_of line_cost)

pub bill-push_at :
    (i : ℕ) (line : CartLine) (gs gs' : List (List CartLine))
    → push_at i line gs ≡ some gs'
    → (bill gs' ≡ bill gs + line_cost line) × (length gs' ≡ length gs)
unfolding push_at
bill-push_at i line [] gs' h = absurd (ground arith)
bill-push_at zero line (g ∷ gs) gs' h =
    let e : (g ++ (line ∷ [])) ∷ gs ≡ gs' = ground arith in
    subst (λ gs'. (bill gs' ≡ bill (g ∷ gs) + line_cost line) × (length gs' ≡ suc (length gs))) e
      (omega (arith, sum_of-append line_cost g (line ∷ [])), refl)
bill-push_at (suc i) line (g ∷ gs) gs' h = elim (Option-cases (push_at i line gs)) [
  | inl e ↦ absurd (ground arith)
  | inr (rest, e) ↦
      let whole : g ∷ rest ≡ gs' = ground arith in
      let (cost, len) = bill-push_at i line gs rest e in
      subst (λ gs'. (bill gs' ≡ bill (g ∷ gs) + line_cost line) × (length gs' ≡ suc (length gs)))
        whole (omega (arith, cost), omega (arith, len))
]

-- A push succeeds exactly at the checks that there are.
pub push_at-some :
    (i : ℕ) (line : CartLine) (gs : List (List CartLine))
    → i < length gs
    → (gs' : List (List CartLine)) × (push_at i line gs ≡ some gs')
unfolding push_at
push_at-some i line [] h = absurd (omega arith)
push_at-some zero line (g ∷ gs) h = ((g ++ (line ∷ [])) ∷ gs, refl)
push_at-some (suc i) line (g ∷ gs) h =
    let (rest, e) = push_at-some i line gs (omega arith) in (g ∷ rest, rw e)

-- How many of the rounds i, i + 1, … , i + n - 1 come before the remainder.
abbrev extras : ℕ → ℕ → ℕ → ℕ
extras remainder i zero = 0
extras remainder i (suc n) = (if ltb i remainder then 1 else 0) + extras remainder (i + 1) n

extras-all :
    (remainder i n : ℕ)
    → extras remainder i n
      ≡ (if ltb i remainder then (if ltb (i + n) remainder then n else remainder - i) else 0)
extras-all remainder i zero = ground arith
extras-all remainder i (suc n) = ground (arith, extras-all remainder (i + 1) n)

fragment-cost :
    (line : CartLine) (new : Text) (price : ℕ) → line_cost (cost_fragment line new price) ≡ price
unfolding line_unit_price
fragment-cost line new price = omega arith

bill-share_cost :
    (new_id : ℕ → Text) (line : CartLine) (share remainder i : ℕ) (checks : List ℕ)
    (gs gs' : List (List CartLine))
    → share_cost new_id line share remainder i checks gs ≡ some gs'
    → (bill gs' ≡ bill gs + share * length checks + extras remainder i (length checks))
      × (length gs' ≡ length gs)
unfolding share_cost
bill-share_cost new_id line share remainder i [] gs gs' h =
    let e : gs ≡ gs' = ground arith in
    subst (λ gs'. (bill gs' ≡ bill gs + share * 0 + 0) × (length gs' ≡ length gs)) e
      (omega arith, refl)
bill-share_cost new_id line share remainder i (check ∷ checks) gs gs' h =
    let extra : ℕ = if ltb i remainder then 1 else 0 in
    let piece = cost_fragment line (new_id i) (share + extra) in
    elim (Option-cases (push_at check piece gs)) [
      | inl e ↦ absurd (ground arith)
      | inr (next, e) ↦
          let (cost, len) = bill-push_at check piece gs next e in
          let (rest, len') =
            bill-share_cost new_id line share remainder (i + 1) checks next gs' (ground arith) in
          (
            omega (arith, cost, rest, fragment-cost line (new_id i) (share + extra)),
            omega (arith, len, len'),
          )
    ]

unit-cost :
    (line : CartLine) (new : Text) (n : ℕ)
    → line_cost (record line { id = new; quantity = n }) ≡ line_unit_price line * n
unfolding line_unit_price
unit-cost line new n = refl

bill-share_units :
    (new_id : ℕ → Text) (line : CartLine) (base remainder i : ℕ) (checks : List ℕ)
    (gs gs' : List (List CartLine))
    → share_units new_id line base remainder i checks gs ≡ some gs'
    → (bill gs'
        ≡ bill gs
          + line_unit_price line * (base * length checks + extras remainder i (length checks)))
      × (length gs' ≡ length gs)
unfolding share_units
bill-share_units new_id line base remainder i [] gs gs' h =
    let e : gs ≡ gs' = ground arith in
    subst
      (λ gs'.
        (bill gs' ≡ bill gs + line_unit_price line * (base * 0 + 0)) × (length gs' ≡ length gs))
      e (omega arith, refl)
bill-share_units new_id line base remainder i (check ∷ checks) gs gs' h =
    let extra : ℕ = if ltb i remainder then 1 else 0 in
    let n : ℕ = length checks in
    let piece : CartLine = record line { id = new_id i; quantity = base + extra } in
    elim (Bool-cases (ltb 0 (base + extra))) [
      | inl f ↦ elim (Option-cases (push_at check piece gs)) [
        | inl e ↦ absurd (ground arith)
        | inr (next, e) ↦
            let (cost, len) = bill-push_at check piece gs next e in
            let (rest, len') =
              bill-share_units new_id line base remainder (i + 1) checks next gs' (ground arith) in
            (
              omega (arith, cost, rest, unit-cost line (new_id i) (base + extra)),
              omega (arith, len, len'),
            )
      ]
      | inr f ↦
          let (rest, len') =
            bill-share_units new_id line base remainder (i + 1) checks gs gs' (ground arith) in
          let none_here : base + extra ≡ 0 = ground arith in
          let units : base * suc n + extras remainder i (suc n)
              ≡ base * n + extras remainder (i + 1) n =
            omega (arith, none_here) in
          (rest ∙ ap (λ x. bill gs + line_unit_price line * x) (sym units), len')
    ]

-- A total dealt in equal shares, and a unit more in each of the first rounds of the remainder.
fair : (total n : ℕ) → 0 < n → total / n * n + extras (total - total / n * n) 0 n ≡ total
fair total n positive =
    let r : ℕ = total - total / n * n in
    let small : r < n =
      omega (arith, div-mul-le_self total n, lt-div-mul-add {a = total} positive) in
    let least : total / n * n ≤ total = div-mul-le_self total n in
    let dealt : extras r 0 n ≡ r = ground (arith, extras-all r 0 n) in omega (arith, dealt, least)

pub bill-split_line :
    (new_id : ℕ → Text) (line : CartLine) (checks : List ℕ) (gs gs' : List (List CartLine))
    → split_line new_id line checks gs ≡ some gs'
    → (bill gs' ≡ bill gs + line_cost line) × (length gs' ≡ length gs)
unfolding split_line
bill-split_line new_id line [] gs gs' h = bill-push_at 0 line gs gs' h
bill-split_line new_id line (c ∷ cs) gs gs' h =
    let n : ℕ = length (c ∷ cs) in
    let base : ℕ = line.quantity / n in
    let total : ℕ = line_unit_price line * line.quantity in
    elim (Bool-cases (base == 0)) [
      | inl e ↦
          let (cost, len) =
            bill-share_cost new_id line (total / n) (total - total / n * n) 0 (c ∷ cs) gs gs'
              (ground arith) in
          (omega (arith, cost, fair total n (omega arith)), len)
      | inr e ↦
          let (cost, len) =
            bill-share_units new_id line base (line.quantity - base * n) 0 (c ∷ cs) gs gs'
              (ground arith) in
          (
            cost
                ∙ ap (λ q. bill gs + line_unit_price line * q) (fair line.quantity n (omega arith)),
            len,
          )
    ]

pub bill-split_onto :
    (new_id : Text → ℕ → Text) (lines : List CartLine) (assignment : List (Text × List Bool))
    (gs gs' : List (List CartLine))
    → split_onto new_id lines assignment gs ≡ some gs'
    → (bill gs' ≡ bill gs + sum_of line_cost lines) × (length gs' ≡ length gs)
unfolding split_onto
bill-split_onto new_id [] assignment gs gs' h =
    let e : gs ≡ gs' = ground arith in
    subst (λ gs'. (bill gs' ≡ bill gs + 0) × (length gs' ≡ length gs)) e (omega arith, refl)
bill-split_onto new_id (line ∷ lines) assignment gs gs' h =
    let checks = selected_from 0 (flags_of assignment line.id) in
    elim (Option-cases (split_line (new_id line.id) line checks gs)) [
      | inl e ↦ absurd (ground arith)
      | inr (next, e) ↦
          let (cost, len) = bill-split_line (new_id line.id) line checks gs next e in
          let (rest, len') = bill-split_onto new_id lines assignment next gs' (ground arith) in
          (omega (arith, cost, rest), omega (arith, len, len'))
    ]
