-- ===== src/Cart/Delta/Laws.antt =====
-- What is sent to the server for a tab that was added to.
use antd_platform.Prelude.{
  zero, suc, ◌+◌, ◌<◌, ◌⊎◌, Memᴰ, replicate, max, if◌then◌else◌, text_eq, ltb, true, ℕ, ◌-◌, ◌≡◌,
  ◌≢◌, refl, sym, arith, Bool, Option, none, some, List, [], ◌∷◌, ◌++◌, Text, text_eq_iff,
  text_eq_refl, All, sum_of, sum_of-append, get_or, Option-cases, inl, inr,
}
use antd_platform.Cart.{CartLine, Product, SelectedModifier}
use antd_platform.Cart.Lines.{absorb, add_line_with_options}
use antd_platform.Cart.Lines.Added.{DistinctBy, Grows, at_head, in_tail, absorb-Grows, new_line}
use antd_platform.Cart.Delta.{quantity_before, lines_delta, DeltaItem, delta_item, option_ids_for}
use antd_platform.Cart.Signature.{merge_signature}

quantity_before-none :
    (ls : List CartLine) (id : Text) → All (λ l. l.id ≢ id) ls → quantity_before ls id ≡ none
unfolding quantity_before
quantity_before-none [] id h = refl
quantity_before-none (l ∷ ls) id (h, hs) =
    ground (arith, quantity_before-none ls id hs, text_eq_iff l.id id)

-- The baseline knows the quantities of these lines.
abbrev Known : List CartLine → List CartLine → Type 0
Known baseline = All (λ l. quantity_before baseline l.id ≡ some l.quantity)

quantity_before-cons :
    (l : CartLine) (baseline ls : List CartLine) → Known baseline ls → Known (l ∷ baseline) ls
unfolding quantity_before
quantity_before-cons l baseline [] h = tt
quantity_before-cons l baseline (k ∷ ks) (h, hs) =
    (rw (quantity_before, h) refl, quantity_before-cons l baseline ks hs)

All-sym : (id : Text) (ls : List CartLine) → All (λ k. id ≢ k.id) ls → All (λ k. k.id ≢ id) ls
All-sym id [] h = tt
All-sym id (k ∷ ks) (h, hs) = ((λ e. h (sym e)), All-sym id ks hs)

itself : (ls : List CartLine) → DistinctBy (λ l. l.id) ls → Known ls ls
unfolding quantity_before
itself [] d = tt
itself (l ∷ ls) (d, ds) =
    let absent = quantity_before-none ls l.id (All-sym l.id ls d) in
    (ground (arith, absent, text_eq_refl l.id), quantity_before-cons l ls ls (itself ls ds))

lines_delta-Known : (baseline ls : List CartLine) → Known baseline ls → lines_delta baseline ls ≡ []
unfolding lines_delta
lines_delta-Known baseline [] h = refl
lines_delta-Known baseline (l ∷ ls) (h, hs) = ground (arith, lines_delta-Known baseline ls hs)

-- Nothing is owed for a cart that is as it was loaded.
pub lines_delta_self : (ls : List CartLine) → DistinctBy (λ l. l.id) ls → lines_delta ls ls ≡ []
lines_delta_self ls d = lines_delta-Known ls ls (itself ls d)

-- How often an id is in a list.
abbrev pub times : Text → List Text → ℕ
times x = sum_of (λ y. if text_eq y x then 1 else 0)

times-replicate : (x y : Text) (n : ℕ) → times x (replicate n y) ≡ (if text_eq y x then n else 0)
times-replicate x y zero = ground arith
times-replicate x y (suc n) = ground (arith, times-replicate x y n)

option_ids_for-times :
    (x : Text) (ms : List SelectedModifier)
    → times x (option_ids_for ms)
      ≡ sum_of (λ m. if text_eq m.option_id x then max 1 (get_or m.quantity 1) else 0) ms
unfolding option_ids_for
option_ids_for-times x [] = refl
option_ids_for-times x (m ∷ ms) =
    let n = max 1 (get_or m.quantity 1) in
    omega (
      arith,
      sum_of-append (λ y. if text_eq y x then 1 else 0) (replicate n m.option_id)
          (option_ids_for ms),
      times-replicate x m.option_id n,
      option_ids_for-times x ms,
    )

-- What is sent for a quantity of a line: each selected option as often as it is taken.
pub record Sends (line : CartLine) (quantity : ℕ) (d : DeltaItem) : Type 0 where
  pub product_is : d.menu_item_id ≡ line.product.id
  pub quantity_is : d.quantity ≡ quantity
  pub notes_are : d.notes ≡ line.notes
  pub course_is : d.course ≡ line.course
  pub options_are :
      (x : Text)
      → times x d.option_ids
        ≡ sum_of
            (λ m. if text_eq m.option_id x then max 1 (get_or m.quantity 1) else 0)
            line.selected_modifiers
  pub override_is : d.price_override ≡ line.price_override

delta_item-Sends : (l : CartLine) (quantity : ℕ) → Sends l quantity (delta_item l quantity)
delta_item-Sends l quantity = record {
  product_is = refl;
  quantity_is = refl;
  notes_are = refl;
  course_is = refl;
  options_are = λ x. option_ids_for-times x l.selected_modifiers;
  override_is = refl;
}

lines_delta-snoc :
    (baseline ls : List CartLine) (l : CartLine)
    → Known baseline ls
    → quantity_before baseline l.id ≡ none
    → 0 < l.quantity
    → lines_delta baseline (ls ++ l ∷ []) ≡ delta_item l l.quantity ∷ []
unfolding lines_delta
lines_delta-snoc baseline [] l known new some_more = ground arith
lines_delta-snoc baseline (k ∷ ks) l (h, hs) new some_more =
    ground (arith, h, lines_delta-snoc baseline ks l hs new some_more)

module _ (le : Text → Text → Bool) where
  -- What is sent after an addition: one item, of the new line or the line of the cart that looks like it.
  pub record OneSent (incoming : CartLine) (quantity : ℕ) (lines : List CartLine)
      (sent : List DeltaItem) : Type 0 where
    pub line : CartLine
    pub item : DeltaItem
    pub looks_the_same : merge_signature le line ≡ merge_signature le incoming
    pub whence : (line ≡ incoming) ⊎ Memᴰ line lines
    pub only : sent ≡ item ∷ []
    pub item_is : Sends line quantity item

  OneSent-cons :
      (incoming : CartLine) (quantity : ℕ) (l : CartLine) (ls : List CartLine)
      (sent : List DeltaItem)
      → OneSent incoming quantity ls sent
      → OneSent incoming quantity (l ∷ ls) sent
  OneSent-cons incoming quantity l ls sent o = record {
    line = o.line;
    item = o.item;
    looks_the_same = o.looks_the_same;
    whence = elim o.whence [ inl e ↦ inl e | inr m ↦ inr (Memᴰ.tail m) ];
    only = o.only;
    item_is = o.item_is;
  }

  grown_delta :
      (baseline ls : List CartLine) (l : CartLine) (quantity : ℕ)
      → quantity_before baseline l.id ≡ some l.quantity
      → Known baseline ls
      → 0 < quantity
      → lines_delta baseline (record l { quantity = l.quantity + quantity } ∷ ls)
        ≡ delta_item l quantity ∷ []
  unfolding lines_delta
  grown_delta baseline ls l quantity h hs some_more =
      let left : l.quantity + quantity - l.quantity ≡ quantity = omega arith in
      let more : ltb l.quantity (l.quantity + quantity) ≡ true = ground arith in
      rw (h, more, left, lines_delta-Known baseline ls hs)

  kept_delta :
      (baseline ls : List CartLine) (l : CartLine)
      → quantity_before baseline l.id ≡ some l.quantity
      → lines_delta baseline (l ∷ ls) ≡ lines_delta baseline ls
  unfolding lines_delta
  kept_delta baseline ls l h = ground (arith, h)

  Grows-OneSent :
      (baseline : List CartLine) (incoming : CartLine) (quantity : ℕ) (ls ls' : List CartLine)
      → Grows le incoming quantity ls ls'
      → Known baseline ls
      → 0 < quantity
      → OneSent incoming quantity ls (lines_delta baseline ls')
  Grows-OneSent baseline incoming quantity ls ls' (at_head l rest look) (h, hs) some_more = record {
    line = l;
    item = delta_item l quantity;
    looks_the_same = look;
    whence = inr (Memᴰ.head refl);
    only = grown_delta baseline rest l quantity h hs some_more;
    item_is = delta_item-Sends l quantity;
  }
  Grows-OneSent baseline incoming quantity ls ls' (in_tail {ls = rest} {ls' = rest'} l g) (h, hs)
        some_more =
      rw (kept_delta baseline rest' l h) (
        OneSent-cons incoming quantity l rest (lines_delta baseline rest')
          (Grows-OneSent baseline incoming quantity rest rest' g hs some_more))

  -- Where the lines of a loaded tab have distinct ids, the id of the new line is fresh and something is
  -- added, just one item is sent after an addition: the added quantity, with the product, the notes, the
  -- course, the override and each option as often as it is taken, of the new line or of the line of the cart
  -- that looks like it. Nothing is sent for a cart that is as it was.
  pub lines_delta-add :
      (new_id : Text) (lines : List CartLine) (product : Product) (quantity : ℕ)
      (notes : Option Text) (course : Option ℕ) (modifiers : List SelectedModifier)
      → DistinctBy (λ l. l.id) lines
      → All (λ l. l.id ≢ new_id) lines
      → 0 < quantity
      → OneSent (new_line le new_id product quantity notes course modifiers) quantity lines (
          lines_delta lines
            (add_line_with_options le new_id lines product quantity notes course modifiers))
        × (lines_delta lines lines ≡ [])
  unfolding add_line_with_options
  lines_delta-add new_id lines product quantity notes course modifiers d fresh some_more =
      let incoming = new_line le new_id product quantity notes course modifiers in
      let known = itself lines d in
      let same = lines_delta-Known lines lines known in
      elim (Option-cases (absorb le incoming quantity lines)) [
        | inl e ↦
            rw (add_line_with_options, e)
              (
                record {
                  line = incoming;
                  item = delta_item incoming quantity;
                  looks_the_same = refl;
                  whence = inl refl;
                  only =
                      lines_delta-snoc lines lines incoming known
                        (quantity_before-none lines new_id fresh) some_more;
                  item_is = delta_item-Sends incoming quantity;
                },
                same,
              )
        | inr (after, e) ↦
            rw (add_line_with_options, e)
              (
                Grows-OneSent lines incoming quantity lines after
                    (absorb-Grows le incoming quantity lines after e) known some_more,
                same,
              )
      ]
