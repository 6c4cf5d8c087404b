-- ===== src/Pricing/Discounts/Laws.antt =====
-- Which discounts can be applied.
use antd_platform.Prelude.{
  Memᴰ, find-Memᴰ, find-passes, ap, ◌≡◌, ◌≢◌, ◌⊎◌, refl, arith, true, false, ◌&&◌, Option, none,
  some, List, Text, text_eq, text_eq_iff, codes, ok, inl, inr, Bool-cases,
}
use antd_platform.Strings.{trimmed, to_upper_case}
use antd_platform.Money.{Discount}
use antd_platform.Pricing.Discounts.{
  DiscountRow, is_live, has_code, given, find_discount, check_discount, resolve_discount,
}

-- The row that a request names: by its id, or else by its code, in capitals.
abbrev pub IsNamed : Option Text → Option Text → DiscountRow → Type 0
IsNamed none none r = ⊥
IsNamed (some id) code r = r.discount.id ≡ id
IsNamed none (some code) r = r.code ≡ some (to_upper_case code)

-- A discount that may be used: of a live row of the table that is the organization's own and that the
-- request names, and not reserved to managers if a plain user asks.
pub record MayApply (rows : List DiscountRow) (org role : Text) (id code : Option Text)
    (d : Discount) : Type 0 where
  pub row : DiscountRow
  pub listed : Memᴰ row rows
  pub is_its : row.discount ≡ d
  pub own : row.organization_id ≡ org
  pub live : (row.active ≡ true) × (row.is_deleted ≡ false)
  pub named : IsNamed id code row
  pub allowed : (role ≢ codes "user") ⊎ (d.requires_manager ≡ false)

has_code-eq : (code : Text) (c : Option Text) → has_code code c ≡ true → c ≡ some code
has_code-eq code none h = absurd (ground arith)
has_code-eq code (some c) h = ap some ((text_eq_iff c code).0 h)

find_discount-found :
    (rows : List DiscountRow) (org : Text) (id code : Option Text) (r : DiscountRow)
    → find_discount rows org id code ≡ some r
    → Memᴰ r rows × (is_live org r ≡ true) × IsNamed id code r
unfolding find_discount
find_discount-found rows org (some id) code r h =
    let t = find-passes (λ r. is_live org r && text_eq r.discount.id id) rows r h in
    (find-Memᴰ _ rows r h, ground arith, (text_eq_iff r.discount.id id).0 (ground arith))
find_discount-found rows org none none r h = absurd (ground arith)
find_discount-found rows org none (some code) r h =
    let t = find-passes (λ r. is_live org r && has_code (to_upper_case code) r.code) rows r h in
    (find-Memᴰ _ rows r h, ground arith, has_code-eq (to_upper_case code) r.code (ground arith))

check_discount-inv :
    (role : Text) (r : Option DiscountRow) (d : Discount)
    → check_discount role r ≡ ok (some d)
    → (row : DiscountRow) × (r ≡ some row)
      × (row.discount ≡ d)
      × ((role ≢ codes "user") ⊎ (d.requires_manager ≡ false))
unfolding check_discount
check_discount-inv role none d h = absurd (ground arith)
check_discount-inv role (some row) d h = (
  row,
  refl,
  ground arith,
  elim (Bool-cases (text_eq role (codes "user"))) [
    | inl e ↦ inr (ground arith)
    | inr e ↦ inl (λ same. ground (arith, text_eq_iff role (codes "user")))
  ],
)

resolved :
    (rows : List DiscountRow) (org role : Text) (id code : Option Text) (d : Discount)
    → check_discount role (find_discount rows org id code) ≡ ok (some d)
    → MayApply rows org role id code d
resolved rows org role id code d h =
    let (row, found, same, allowed) =
      check_discount-inv role (find_discount rows org id code) d h in
    let (listed, live, named) = find_discount-found rows org id code row found in
    record {
      row = row;
      listed = listed;
      is_its = same;
      own = ground (arith, text_eq_iff row.organization_id org);
      live = ground arith;
      named = named;
      allowed = allowed;
    }

-- A discount that is resolved is that of a row of the table: the organization's own, active, not deleted,
-- and with the id or else the code that the request names; and a plain user never gets one that requires
-- a manager. Without an id and a promo code there is none.
pub resolve_discount-MayApply :
    (rows : List DiscountRow) (org role : Text) (id code : Option Text) (d : Discount)
    → resolve_discount rows org role id code ≡ ok (some d)
    → MayApply rows org role (given id) (trimmed code) d
      × (resolve_discount rows org role none none ≡ ok none)
unfolding resolve_discount trimmed
resolve_discount-MayApply rows org role id code d h =
    (resolved rows org role (given id) (trimmed code) d (ground arith), refl)
