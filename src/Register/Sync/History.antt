-- ===== src/Register/Sync/History.antt =====
-- What was queued for an order, and what a turn of the loop has to keep of it.
use antd_platform.Prelude.{
  ◌≡◌, ◌⊎◌, inl, inr, refl, ◌∙◌, subst, arith, Bool, true, false, Bool-cases, List, ◌∷◌, ◌++◌, map,
  map, Text, text_eq, text_eq_iff, text_eq_refl, any, if◌then◌else◌,
}
use antd_platform.Register.{OrderMutation}
use antd_platform.Register.Outbox.{list_pending, update_row, mark_failed, bump_attempts, park, bump}
use antd_platform.Register.Outbox.Laws.{list_pending-map}
use antd_platform.Register.Sync.{Device, Turn, next, stop}
use antd_platform.Register.Sync.Frame.{is_known}
use antd_platform.Register.Sync.Pending.{of_order, ids, Owned, KeepsNames}

abbrev pub pending : {S : Type 0} → Device S → List OrderMutation
pending d = list_pending d.register.outbox

-- What was queued for an order, in order: what the server has accepted, and then what it is owed.
unfoldable pub history : {S : Type 0} → Text → Device S → List Text
history j d = ids (of_order j d.delivered) ++ ids (of_order j (pending d))

-- An order that is blocked, or whose rows are all still to come.
abbrev pub Ahead : Text → List Text → List OrderMutation → List OrderMutation → Type 0
Ahead j blocked rest rows = (any (text_eq j) blocked ≡ true) ⊎ (of_order j rows ≡ of_order j rest)

abbrev pub block_next : Bool → OrderMutation → List Text → List Text
block_next block m blocked = if block then m.order_id ∷ blocked else blocked

-- What a turn keeps for the order `j`.
pub record Keeps (S : Type 0) (j : Text) (d d' : Device S) : Type 0 where
  pub history_kept : history j d' ≡ history j d
  pub known_kept : is_known j d'.register.orders ≡ is_known j d.register.orders

pub record Moves (S : Type 0) (j : Text) (blocked : List Text) (rest : List OrderMutation)
    (d d' : Device S) : Type 0 where
  pub keeps : Keeps S j d d'
  pub owned : Owned rest (pending d')
  pub ahead : Ahead j blocked rest (pending d')

abbrev pub Goes :
    {S : Type 0}
    → Text
    → List Text
    → OrderMutation
    → List OrderMutation
    → Device S
    → Turn S
    → Type 0
Goes j blocked m rest d (next block d') = Moves _ j (block_next block m blocked) rest d d'
Goes j blocked m rest d (stop d' e) = Keeps _ j d d'

any-cons :
    (j k : Text) (blocked : List Text)
    → any (text_eq j) blocked ≡ true
    → any (text_eq j) (k ∷ blocked) ≡ true
any-cons j k blocked h = ground arith

-- The order of a skipped mutation is blocked, so that the next ones may be anything.
pub Ahead-blocked :
    (j : Text) (m : OrderMutation) (blocked : List Text) (rest rows : List OrderMutation)
    → any (text_eq m.order_id) blocked ≡ true
    → Ahead j blocked (m ∷ rest) rows
    → Ahead j blocked rest rows
Ahead-blocked j m blocked rest rows h (inl e) = inl e
Ahead-blocked j m blocked rest rows h (inr e) = elim (Bool-cases (text_eq m.order_id j)) [
  | inl same ↦
      inl (subst (λ k. any (text_eq k) blocked ≡ true) ((text_eq_iff m.order_id j).0 same) h)
  | inr other ↦ inr (e ∙ rw other)
]

-- Another order's mutation is behind it, whatever became of its row.
pub Ahead-other :
    (j : Text) (m : OrderMutation) (blocked : List Text) (rest rows rows' : List OrderMutation)
    → text_eq m.order_id j ≡ false
    → of_order j rows' ≡ of_order j rows
    → Ahead j blocked (m ∷ rest) rows
    → Ahead j blocked rest rows'
Ahead-other j m blocked rest rows rows' h same (inl e) = inl e
Ahead-other j m blocked rest rows rows' h same (inr e) = inr (same ∙ e ∙ rw h)

-- Its order is blocked from here on.
pub Ahead-parked :
    (j : Text) (m : OrderMutation) (blocked : List Text) (rest rows rows' : List OrderMutation)
    → (text_eq m.order_id j ≡ false → of_order j rows' ≡ of_order j rows)
    → Ahead j blocked (m ∷ rest) rows
    → Ahead j (m.order_id ∷ blocked) rest rows'
Ahead-parked j m blocked rest rows rows' same a = elim (Bool-cases (text_eq m.order_id j)) [
  | inl e ↦ inl (ground (arith, text_eq_iff m.order_id j, text_eq_refl m.order_id, text_eq_refl j))
  | inr other ↦ elim (Ahead-other j m blocked rest rows rows' other (same other) a) [
    | inl e ↦ inl (any-cons j m.order_id blocked e)
    | inr e ↦ inr e
  ]
]

-- A row that is parked or counted keeps its name, its order and its time.
pub park-KeepsNames : (message : Text) → KeepsNames (park message)
unfolding park
park-KeepsNames message = record { id_kept = λ r. refl; order_kept = λ r. refl }

pub bump-KeepsNames : KeepsNames bump
unfolding bump
bump-KeepsNames = record { id_kept = λ r. refl; order_kept = λ r. refl }

pub pending-mark_failed :
    (id message : Text) (outbox : List OrderMutation)
    → list_pending (mark_failed id message outbox)
      ≡ map (update_row id (park message)) (list_pending outbox)
unfolding mark_failed
pending-mark_failed id message outbox =
    list_pending-map (update_row id (park message)) (λ r. unfold park in ground arith) outbox

pub pending-bump_attempts :
    (id : Text) (outbox : List OrderMutation)
    → list_pending (bump_attempts id outbox) ≡ map (update_row id bump) (list_pending outbox)
unfolding bump_attempts
pending-bump_attempts id outbox =
    list_pending-map (update_row id bump) (λ r. unfold bump in ground arith) outbox
