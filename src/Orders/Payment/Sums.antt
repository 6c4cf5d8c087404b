-- ===== src/Orders/Payment/Sums.antt =====
-- The ledger's sum when rows are added.
use antd_platform.Prelude.{◌≡◌, ◌++◌, ◌∙◌, ap, List, Text}
use antd_platform.Prelude.Int.{sum_ℤ, sum_ℤ-append, ◌+ℤ◌}
use antd_platform.Database.{Payment, Db, payments_of}
use antd_platform.Orders.Payment.{paid_sum_for}

pub paid_sum-append :
    (id : Text) (db db' : Db) (rows : List Payment)
    → payments_of id db' ≡ payments_of id db ++ rows
    → paid_sum_for id db' ≡ paid_sum_for id db +ℤ sum_ℤ (λ (p : Payment). p.amount) rows
unfolding paid_sum_for
paid_sum-append id db db' rows h =
    ap (sum_ℤ (λ p. p.amount)) h ∙ sum_ℤ-append (λ p. p.amount) (payments_of id db) rows
