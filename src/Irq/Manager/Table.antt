-- ===== src/Irq/Manager/Table.antt =====
-- The handlers that the lists of the manager hold, and how `add_handler` changes them.
use bolgenos_ng.Base.{
  ℕ, ◌≡◌, ◌≢◌, refl, sym, ◌∙◌, subst, false, none, [], ◌∷◌, arith, ◌==◌, ℕ_discrete,
}
use bolgenos_ng.Memory.Machine.{panicked, Returns, Returns-bind}
use bolgenos_ng.Utils.ForwardList.{Nodes, push_front}
use bolgenos_ng.Utils.ForwardList.Linked.{
  Cells, Linked, Outside, Disjoint, Linked-frame, none-Outside,
}
use bolgenos_ng.Utils.ForwardList.Push.{Pushed, push_after-Pushed, push_after_full, Disjoint-add}
use bolgenos_ng.Irq.Manager.{Slot, InterruptsManager, add_handler}

pub Slot-discrete : Discrete Slot
Slot-discrete = hlevel (ℕ_discrete)

abbrev pub Items : Type 0
Items = Slot → Cells ℕ

-- The nodes of the list of a slot, its `before_begin_` in front.
abbrev pub whole : InterruptsManager → Items → Slot → Cells ℕ
whole m items s = (m.lists s, 0) ∷ items s

-- The manager holds the handlers `items`.
pub record Holds (m : InterruptsManager) (items : Items) : Type 0 where
  pub linked : (s : Slot) → Linked m.nodes (whole m items s)
  pub apart : (s t : Slot) → s ≢ t → Disjoint (whole m items s) (whole m items t)

-- The items with one more in front of those of `slot`.
unfoldable pub with_item : Items → Slot → (p handler : ℕ) → Items
with_item items slot p handler s = elim (Slot-discrete s slot) [
  | yes e ↦ (p, handler) ∷ items s
  | no ne ↦ items s
]

pub with_item_self :
    (items : Items) (slot : Slot) (p handler : ℕ)
    → with_item items slot p handler slot ≡ (p, handler) ∷ items slot
unfolding with_item
with_item_self items slot p handler =
    elim (Slot-discrete slot slot)
      as (λ d.
        elim d [ yes e ↦ (p, handler) ∷ items slot | no ne ↦ items slot ]
        ≡ (p, handler) ∷ items slot) [ yes e ↦ refl | no ne ↦ absurd (ne refl) ]

pub with_item_ne :
    (items : Items) (slot : Slot) (p handler : ℕ) (s : Slot)
    → s ≢ slot
    → with_item items slot p handler s ≡ items s
unfolding with_item
with_item_ne items slot p handler s ne =
    elim (Slot-discrete s slot)
      as (λ d. elim d [ yes e ↦ (p, handler) ∷ items s | no ne ↦ items s ] ≡ items s) [
        | yes e ↦ absurd (ne e)
        | no ne ↦ refl
      ]

module _ (m : InterruptsManager) (items : Items) (holds : Holds m items) (slot : Slot)
    (p handler : ℕ) (free : m.nodes p ≡ none) where
  abbrev added : Items
  added = with_item items slot p handler

  abbrev grown : Cells ℕ
  grown = (m.lists slot, 0) ∷ (p, handler) ∷ items slot

  out : (s : Slot) → Outside p (whole m items s)
  out s = none-Outside m.nodes p (whole m items s) free (holds.linked s)

  module _ (r : Nodes ℕ × ℕ)
      (pushed : Pushed m.nodes [] (m.lists slot) 0 p handler (items slot) r) where
    abbrev after : InterruptsManager
    after = record m { nodes = r.0 }

    added-Linked : (s : Slot) → Linked r.0 (whole after added s)
    added-Linked s = elim (Slot-discrete s slot) [
      | yes e ↦ rw (e, with_item_self items slot p handler) pushed.linked
      | no ne ↦ rw (with_item_ne items slot p handler s ne) (
          Linked-frame m.nodes r.0 (whole m items s) grown (λ q away. pushed.kept q away.0 away.1.0)
            (Disjoint-add m.nodes (whole m items s) (m.lists slot) 0 p handler (items slot) (out s)
              (holds.apart s slot ne))
            (holds.linked s))
    ]

    added-Disjoint : (s t : Slot) → s ≢ t → Disjoint (whole after added s) (whole after added t)
    added-Disjoint s t ne = elim (Slot-discrete s slot) [
      | yes e ↦
          let t_slot : t ≢ slot = λ e'. ne (e ∙ sym e') in
          let old = holds.apart s t ne in
          rw (with_item_ne items slot p handler t t_slot) (
            subst
              (λ u. Disjoint ((m.lists u, 0) ∷ with_item items slot p handler u) (whole m items t))
              (sym e)
              (rw (with_item_self items slot p handler)
                (let o = holds.apart slot t (λ e'. ne (e ∙ e')) in (o.0, (out t, o.1)))))
      | no s_slot ↦ rw (with_item_ne items slot p handler s s_slot) (elim (Slot-discrete t slot) [
        | yes e ↦
            subst
              (λ u. Disjoint (whole m items s) ((m.lists u, 0) ∷ with_item items slot p handler u))
              (sym e)
              (rw (with_item_self items slot p handler) (
                Disjoint-add m.nodes (whole m items s) (m.lists slot) 0 p handler (items slot)
                  (out s) (holds.apart s slot s_slot)))
        | no t_slot ↦ rw (with_item_ne items slot p handler t t_slot) (holds.apart s t ne)
      ])
    ]

  -- Where the manager holds some handlers in its lists, which have no node in common, and the
  -- allocator answers a free address that is not null, `add_handler` returns: the slot holds the
  -- new handler in front of its own, and the other slots hold what they held.
  pub add_handler-Holds : p ≢ 0 → Returns (λ m'. Holds m' added) (add_handler m slot handler p)
  unfolding add_handler push_front
  add_handler-Holds some_p =
      Returns-bind (Pushed m.nodes [] (m.lists slot) 0 p handler (items slot))
        (λ m'. Holds m' added) _ _
        (push_after-Pushed m.nodes 0 [] (m.lists slot) 0 p handler (items slot) some_p free
          (holds.linked slot))
        λ r pushed.
          let back = pushed.returned in
          let t : (r.1 == 0) ≡ false = ground arith in
          rw t (record { linked = added-Linked r pushed; apart = added-Disjoint r pushed })

-- Without memory for the node there is no way on.
pub add_handler_full :
    (m : InterruptsManager) (slot : Slot) (handler : ℕ) → add_handler m slot handler 0 ≡ panicked
unfolding add_handler push_front
add_handler_full m slot handler = rw (push_after_full m.nodes 0 (m.lists slot) handler) refl
