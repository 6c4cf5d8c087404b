-- ===== src/Status/Examples.antt =====
-- Tests of the status table, and its theorems at concrete statuses.
use antd_platform.Prelude.{text_eq, ◌≤◌, ◌≡◌, ◌≢◌, refl, codes}
use antd_platform.Status.{
  pending, confirmed, preparing, ready, completed, refunded, can_transition_order_status,
}
use antd_platform.Status.Lifecycle.{Chain, here, next, Chain_bounded}
use antd_platform.Status.External.{map_external_status}

abbrev whole_life : Chain 5 pending refunded
whole_life =
    unfold can_transition_order_status in
    next {t = confirmed} refl (
      next {t = preparing} refl
        (next {t = ready} refl (next {t = completed} refl (next {t = refunded} refl here))))

Chain_bounded_example : (5 ≤ 5) × (pending ≢ refunded)
Chain_bounded_example = Chain_bounded whole_life

maps_uber : map_external_status (codes " DELIVERED ") ≡ completed
unfolding map_external_status text_eq
maps_uber = refl
