-- ===== src/Cart/Signature.antt =====
-- cartOps.ts, `mergeSignature`: the text by which a fresh line is compared with the lines of the cart.
-- `localeCompare` is the runtime's, so the order of texts is a parameter.
use antd_platform.Prelude.{
  ℕ, zero, suc, ◌+◌, ◌/◌, ◌%◌, Bool, Option, none, some, List, [], ◌∷◌, ◌++◌, map, Text, codes,
  text_eq, if◌then◌else◌, get_or, ltb,
}
use antd_platform.Cart.{CartLine, SelectedModifier}

-- `String(n)` of a natural number, with as much fuel as the number.
unfoldable pub digits_on : ℕ → ℕ → Text → Text
digits_on zero n out = out
digits_on (suc fuel) n out =
    let more = digits_on fuel (n / 10) ((48 + n % 10) ∷ out) in
    if ltb n 10 then (48 + n) ∷ out else more

unfoldable pub number_text : ℕ → Text
unfolding digits_on
number_text n = digits_on (suc n) n []

unfoldable pub join : Text → List Text → Text
join separator [] = []
join separator (t ∷ []) = t
join separator (t ∷ u ∷ rest) = t ++ (separator ++ join separator (u ∷ rest))

-- `sort` with a comparison: stable insertion.
unfoldable pub insert_by : (Text → Text → Bool) → Text → List Text → List Text
insert_by le t [] = t ∷ []
insert_by le t (u ∷ us) = let rest = insert_by le t us in if le t u then t ∷ u ∷ us else u ∷ rest

unfoldable pub sort_by : (Text → Text → Bool) → List Text → List Text
unfolding insert_by
sort_by le [] = []
sort_by le (t ∷ ts) = insert_by le t (sort_by le ts)

unfoldable pub modifier_text : SelectedModifier → Text
unfolding number_text
modifier_text m = m.option_id ++ (codes "x" ++ number_text (get_or m.quantity 1))

abbrev pub number_or_empty : Option ℕ → Text
number_or_empty none = []
number_or_empty (some n) = number_text n

module _ (le : Text → Text → Bool) where
  unfoldable pub merge_signature : CartLine → Text
  unfolding modifier_text sort_by join
  merge_signature line =
      let mods = join (codes ",") (sort_by le (map modifier_text line.selected_modifiers)) in
      join (codes "|") (
        line.product.id
        ∷ number_text (get_or line.course 0)
        ∷ get_or line.notes []
        ∷ number_or_empty line.price_override
        ∷ mods
        ∷ [])

  -- `mergeSignature(a) === mergeSignature(b)`.
  abbrev pub same_signature : CartLine → CartLine → Bool
  same_signature a b = text_eq (merge_signature a) (merge_signature b)
