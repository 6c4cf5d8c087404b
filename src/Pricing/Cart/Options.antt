-- ===== src/Pricing/Cart/Options.antt =====
-- The options of a line: found, attached, and within the rules of their groups.
use antd_platform.Prelude.{
  Memᴰ, find-Memᴰ, find-passes, ◌⊎◌, ◌≤◌, ◌<◌, ◌≡◌, refl, subst, arith, true, false, not, some,
  List, [], ◌∷◌, Text, text_eq, text_eq_iff, ok, Result-cases, Option-cases, inl, inr, All, map,
  get_or, ◌&&◌,
}
use antd_platform.Pricing.Cart.{
  Menu, MenuItem, ModifierOption, Attachment, menu_item_of, option_of, is_attached, select_options,
  selection_count, check_group, check_groups,
}

-- An option of the menu that the organization offers, in a group that is attached to the item.
abbrev pub Offers : Menu → Text → List Attachment → ModifierOption → Type 0
Offers menu org attached o =
    Memᴰ o menu.options
    × (o.organization_id ≡ org)
    × (o.is_deleted ≡ false)
    × (is_attached attached o.modifier_id ≡ true)

option_of-inv :
    (menu : Menu) (org id : Text) (o : ModifierOption)
    → option_of menu org id ≡ some o
    → (o.id ≡ id) × Memᴰ o menu.options × (o.organization_id ≡ org) × (o.is_deleted ≡ false)
unfolding option_of
option_of-inv menu org id o h =
    let t =
      find-passes
        (λ (o : ModifierOption).
          text_eq o.id id && text_eq o.organization_id org && not o.is_deleted)
        menu.options o h in
    (
      (text_eq_iff o.id id).0 (ground arith),
      find-Memᴰ _ menu.options o h,
      (text_eq_iff o.organization_id org).0 (ground arith),
      ground arith,
    )

-- An item of the menu that the organization sells now.
abbrev pub IsOnSale : Menu → Text → MenuItem → Type 0
IsOnSale menu org m =
    Memᴰ m menu.items × (m.organization_id ≡ org) × (m.is_deleted ≡ false) × (m.is_available ≡ true)

pub menu_item_of-inv :
    (menu : Menu) (org id : Text) (m : MenuItem)
    → menu_item_of menu org id ≡ some m
    → (m.id ≡ id) × IsOnSale menu org m
unfolding menu_item_of
menu_item_of-inv menu org id m h =
    let t =
      find-passes
        (λ (m : MenuItem).
          text_eq m.id id && text_eq m.organization_id org && not m.is_deleted && m.is_available)
        menu.items m h in
    (
      (text_eq_iff m.id id).0 (ground arith),
      (
        find-Memᴰ _ menu.items m h,
        (text_eq_iff m.organization_id org).0 (ground arith),
        ground arith,
        ground arith,
      ),
    )

pub select_options-inv :
    (menu : Menu) (org : Text) (attached : List Attachment) (ids : List Text)
    (os : List ModifierOption)
    → select_options menu org attached ids ≡ ok os
    → (map (λ o. o.id) os ≡ ids) × All (Offers menu org attached) os
unfolding select_options
select_options-inv menu org attached [] os h =
    let e : [] ≡ os = cc in
    subst (λ os. (map (λ (o : ModifierOption). o.id) os ≡ []) × All (Offers menu org attached) os) e
      (refl, tt)
select_options-inv menu org attached (id ∷ ids) os h = elim (Option-cases (option_of menu org id)) [
  | inl e ↦ absurd (ground arith)
  | inr (o, e) ↦ elim (Result-cases (select_options menu org attached ids)) [
    | inl (rest, f) ↦
        let whole : o ∷ rest ≡ os = ground arith in
        let attached_is : is_attached attached o.modifier_id ≡ true = ground arith in
        let (same, listed, own, live) = option_of-inv menu org id o e in
        let (sames, offers) = select_options-inv menu org attached ids rest f in
        subst
          (λ os.
            (map (λ (o : ModifierOption). o.id) os ≡ id ∷ ids) × All (Offers menu org attached) os)
          whole (cc, ((listed, own, live, attached_is), offers))
    | inr (x, f) ↦ absurd (ground arith)
  ]
]

-- A group's rules, for the options selected on one line.
pub record Respects (selected : List ModifierOption) (group : Attachment) : Type 0 where
  pub required : (group.is_required ≡ false) ⊎ (0 < selection_count group.modifier_id selected)
  pub single : (group.multi_select ≡ true) ⊎ (selection_count group.modifier_id selected ≤ 1)
  pub bounded :
      (group.multi_select ≡ false)
      ⊎ (selection_count group.modifier_id selected
          ≤ get_or group.max_selections (selection_count group.modifier_id selected))

check_group-Respects :
    (selected : List ModifierOption) (group : Attachment)
    → check_group selected group ≡ ok tt
    → Respects selected group
unfolding check_group
check_group-Respects selected group h = ground arith

pub check_groups-Respects :
    (selected : List ModifierOption) (groups : List Attachment)
    → check_groups selected groups ≡ ok tt
    → All (Respects selected) groups
unfolding check_groups
check_groups-Respects selected [] h = tt
check_groups-Respects selected (group ∷ groups) h =
    elim (Result-cases (check_group selected group)) [
      | inl (tt, e) ↦ (
        check_group-Respects selected group (cc),
        check_groups-Respects selected groups (ground arith),
      )
      | inr (x, e) ↦ absurd (ground arith)
    ]
