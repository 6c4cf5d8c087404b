-- ===== src/Examples/Drawers.antt =====
-- A drawer opened with a float: one cash sale, one by card, and a tab from before that is settled in cash.
use antd_platform.Prelude.{arith, text_eq, ◌≡◌, refl, true, false, none, some, [], ◌∷◌, codes}
use antd_platform.Prelude.Int.{negsuc}
use antd_platform.Register.{LocalOrder, Register, synced}
use antd_platform.Register.Tabs.{TabPayment, settle_tab}
use antd_platform.Register.Drawer.{DrawerSession, open_session, sales_since}
use antd_platform.Register.Drawer.Tabs.{settle_tab-uncounted}
use antd_platform.Examples.Registers.{local_tab}

abbrev cash_sale : LocalOrder
cash_sale = record local_tab {
  id = codes "c5";
  status = synced;
  total_amount = 900;
  payment_method = some (codes "cash");
  created_at = 12;
}

abbrev card_sale : LocalOrder
card_sale = record cash_sale {
  id = codes "c6";
  total_amount = 700;
  payment_method = some (codes "card");
}

abbrev sold : Register
sold = record { orders = local_tab ∷ cash_sale ∷ card_sale ∷ []; outbox = [] }

abbrev session : DrawerSession
session = record {
  id = codes "s1";
  is_open = true;
  opened_at = 10;
  closed_at = none;
  opening_amount = 5000;
  cash_sales = 0;
  other_sales = 0;
  expected_amount = none;
  counted_amount = none;
  difference = none;
  remarks = none;
}

opened : open_session 10 (codes "s1") 5000 [] ≡ session ∷ []
unfolding open_session
opened = refl

-- Ten cents are missing.
abbrev counted_session : DrawerSession
counted_session = record session {
  is_open = false;
  closed_at = some 20;
  cash_sales = 900;
  other_sales = 700;
  expected_amount = some 5900;
  counted_amount = some 5890;
  difference = some (negsuc 9);
}

abbrev in_cash : TabPayment
in_cash = record {
  payment_method = codes "cash";
  tendered_amount = some 2000;
  change_amount = some 200;
  tip_amount = none;
}

abbrev eaten : LocalOrder
eaten = record local_tab { total_amount = 1800 }

settle_tab-uncounted_example :
    sales_since 10 (settle_tab 15 (codes "m1") (codes "m2") eaten [] in_cash sold).orders
    ≡ sales_since 10 sold.orders
unfolding text_eq
settle_tab-uncounted_example =
    settle_tab-uncounted 15 (codes "m1") (codes "m2") eaten [] in_cash sold 10 refl
      (λ e. omega arith, (λ e. absurd (ground arith), (λ e. absurd (ground arith), tt)))
