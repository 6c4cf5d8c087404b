-- ===== src/Cart/Lines/Added.antt =====
-- What adding to the cart leaves.
use antd_platform.Prelude.{
  ℕ, ◌+◌, ◌≡◌, ◌≢◌, subst, arith, Bool, Option, none, some, List, [], ◌∷◌, Text, text_eq,
  text_eq_iff, if◌then◌else◌, All, sum_of, Option-cases, inl, inr, Bool-cases,
}
use antd_platform.Cart.{CartLine, Product, SelectedModifier}
use antd_platform.Cart.Signature.{merge_signature, same_signature}
use antd_platform.Cart.Lines.{absorb}

abbrev pub count : List CartLine → ℕ
count = sum_of (λ l. l.quantity)

-- Lines differ pairwise by what `f` reads of them.
abbrev pub DistinctBy : (CartLine → Text) → List CartLine → Type 0
DistinctBy f [] = Unit
DistinctBy f (l ∷ ls) = All (λ k. f l ≢ f k) ls × DistinctBy f ls

module _ (le : Text → Text → Bool) where
  -- What absorbing does: the quantity of one line grows that has the signature, and the rest is as it was.
  pub data Grows (incoming : CartLine) (quantity : ℕ) : List CartLine → List CartLine → Type 0 where
    at_head :
        (l : CartLine) (ls : List CartLine)
        → merge_signature le l ≡ merge_signature le incoming
        → Grows incoming quantity (l ∷ ls) (record l { quantity = l.quantity + quantity } ∷ ls)
    in_tail :
        {ls ls' : List CartLine} (l : CartLine)
        → Grows incoming quantity ls ls'
        → Grows incoming quantity (l ∷ ls) (l ∷ ls')

  pub absorb-Grows :
      (incoming : CartLine) (quantity : ℕ) (ls ls' : List CartLine)
      → absorb le incoming quantity ls ≡ some ls'
      → Grows incoming quantity ls ls'
  unfolding absorb
  absorb-Grows incoming quantity [] ls' h = absurd (ground arith)
  absorb-Grows incoming quantity (l ∷ ls) ls' h = elim (Bool-cases (same_signature le l incoming)) [
    | inl e ↦
        let whole : record l { quantity = l.quantity + quantity } ∷ ls ≡ ls' = ground arith in
        subst (Grows incoming quantity (l ∷ ls)) whole
          (at_head l ls ((text_eq_iff (merge_signature le l) (merge_signature le incoming)).0 e))
    | inr e ↦ elim (Option-cases (absorb le incoming quantity ls)) [
      | inl f ↦ absurd (ground arith)
      | inr (rest, f) ↦
          let whole : l ∷ rest ≡ ls' = ground arith in
          subst (Grows incoming quantity (l ∷ ls)) whole
            (in_tail l (absorb-Grows incoming quantity ls rest f))
    ]
  ]

  -- How much the cart holds of what looks like this.
  abbrev pub tally : Text → List CartLine → ℕ
  tally look = sum_of (λ l. if text_eq (merge_signature le l) look then l.quantity else 0)

  -- What an addition promises of the cart: of what looks like the new line it holds the quantity more, and
  -- as much as before of all else.
  pub record Added (incoming : CartLine) (quantity : ℕ) (before after : List CartLine)
      : Type 0 where
    pub tallied :
        (look : Text)
        → tally look after
          ≡ tally look before + (if text_eq (merge_signature le incoming) look then quantity else 0)
    pub counted : count after ≡ count before + quantity
    pub ids : DistinctBy (λ l. l.id) after
    pub signatures : DistinctBy (merge_signature le) after

  -- The line that an addition would be.
  abbrev pub new_line :
      Text → Product → ℕ → Option Text → Option ℕ → List SelectedModifier → CartLine
  new_line new_id product quantity notes course modifiers = record {
    id = new_id;
    product = product;
    quantity = quantity;
    notes = notes;
    course = course;
    selected_modifiers = modifiers;
    price_override = none;
    price_override_reason = none;
  }
