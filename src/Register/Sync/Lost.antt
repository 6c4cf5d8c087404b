-- ===== src/Register/Sync/Lost.antt =====
-- Runs against the backend in which the answer to a settle is lost.
use antd_platform.Prelude.{ℕ, ◌≡◌, Option, none, some, List, [], ◌∷◌, Text}
use antd_platform.Prelude.Int.{ℤ}
use antd_platform.Pricing.Discounts.{given}
use antd_platform.Shop.{Shop}
use antd_platform.Register.{LocalOrder, OrderMutation, settle}
use antd_platform.Register.Orders.{get_order_by_id, mark_order_failed}
use antd_platform.Register.Outbox.{bump, park}
use antd_platform.Register.Wire.{Request, pay_order, Fate, answered, Server, Wire}
use antd_platform.Register.Sync.{Device}

-- The network is back.
abbrev pub reconnected : {S : Type 0} → List Fate → Device S → Device S
reconnected fates d = record d { wire = record d.wire { fates = fates } }

abbrev pub owing :
    {S : Type 0} → List LocalOrder → OrderMutation → Fate → S → List Request → Device S
owing orders m fate s handled = record {
  register = record { orders = orders; outbox = m ∷ [] };
  wire = record { server = s; fates = fate ∷ []; handled = handled };
  delivered = [];
}

module _ (org : Text) (server later_server : Server Shop) (now later : ℕ) (location : Text)
    (m : OrderMutation) (order : LocalOrder) (orders : List LocalOrder) (id method : Text)
    (tip : Option ℤ) (shop shop' : Shop) (found : get_order_by_id m.order_id orders ≡ some order)
    (addressed : given order.server_id ≡ some id) (is_settle : m.work ≡ settle method tip)
    (clear : m.last_error ≡ none) where
  -- The device after the answer was lost: the attempt is counted, and nothing else is known.
  lost_device : Device Shop
  lost_device = record (owing orders (bump m) answered shop' (pay_order id method tip ∷ [])) {
    wire = record { server = shop'; fates = []; handled = pay_order id method tip ∷ [] };
  }

  -- The device after the server refused the settle that it had accepted.
  parked_device : Device Shop
  parked_device = record {
    register = record {
      orders = mark_order_failed m.order_id [] orders;
      outbox = park [] (bump m) ∷ [];
    };
    wire = record {
      server = shop';
      fates = [];
      handled = pay_order id method tip ∷ pay_order id method tip ∷ [];
    };
    delivered = [];
  }
