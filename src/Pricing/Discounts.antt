-- ===== src/Pricing/Discounts.antt =====
-- order-pricing.service.ts, `resolveDiscount`: the discount that a request names, by id or promo code.
pub mod Laws
use antd_platform.Prelude.{
  Bool, true, false, ◌&&◌, not, Option, none, some, List, [], ◌∷◌, Text, text_eq, codes, Result, ok,
  err, ◌>>=◌, ◌>>◌, refuse, need, if◌then◌else◌, find, is_some, map,
}
use antd_platform.Strings.{trimmed, to_upper_case}
use antd_platform.Money.{Discount}

pub record DiscountRow : Type 0 where
  pub organization_id : Text
  pub code : Option Text
  pub active : Bool
  pub is_deleted : Bool
  pub discount : Discount

pub data DiscountError : Type 0 where
  discount_not_found requires_manager_approval : DiscountError

abbrev pub is_live : Text → DiscountRow → Bool
is_live org r = text_eq r.organization_id org && r.active && not r.is_deleted

abbrev pub has_code : Text → Option Text → Bool
has_code code none = false
has_code code (some c) = text_eq c code

-- An id is true in a test if it is there and not empty.
abbrev pub given : Option Text → Option Text
given none = none
given (some []) = none
given (some (c ∷ cs)) = some (c ∷ cs)

unfoldable pub find_discount :
    List DiscountRow → Text → Option Text → Option Text → Option DiscountRow
find_discount rows org (some id) promo = find (λ r. is_live org r && text_eq r.discount.id id) rows
find_discount rows org none none = none
find_discount rows org none (some code) =
    find (λ r. is_live org r && has_code (to_upper_case code) r.code) rows

unfoldable pub check_discount : Text → Option DiscountRow → Result DiscountError (Option Discount)
check_discount role none = err discount_not_found
check_discount role (some r) =
    if r.discount.requires_manager && text_eq role (codes "user")
    then err requires_manager_approval
    else ok (some r.discount)

unfoldable pub resolve_discount :
    List DiscountRow
    → Text
    → Text
    → Option Text
    → Option Text
    → Result DiscountError (Option Discount)
resolve_discount rows org role discount_id promo_code =
    let id = given discount_id in
    let code = trimmed promo_code in
    if not (is_some id) && not (is_some code)
    then ok none
    else check_discount role (find_discount rows org id code)
