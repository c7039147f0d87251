-- ===== src/Utils/ForwardList/Push.antt =====
-- Adding nodes: `push_after` and `push_front` of forward_list.hpp, and how `pop_front` undoes them.
use mathlib.Core.Path.{fun_ext}
use bolgenos_ng.Base.{
  ℕ, ◌≡◌, ◌≢◌, refl, sym, ap, ◌∙◌, false, none, some, [], ◌∷◌, ◌++◌, arith, ◌==◌, ℕ_discrete,
}
use bolgenos_ng.Memory.Machine.{ok, ◌>>=◌, Returns, ok-Returns}
use bolgenos_ng.Utils.ForwardList.{
  Nodes, store, set_next, set_value, allocate, basic_push_after, push_after, push_front, pop_front,
}
use bolgenos_ng.Utils.ForwardList.Linked.{
  Cells, Outside, Disjoint, Linked, load_lem, store_self, store_ne, none-Outside, Linked-store,
  Linked-right, Linked-apart, Linked-splice, Outside-right, Outside-left,
}
use bolgenos_ng.Utils.ForwardList.Erase.{cell, erased, erase_after_lem}

module _ {A : Type 0} where
  -- The node at `p` stands between the one at `b` and `xs`.
  abbrev made : Nodes A → (blank : A) → ℕ → A → Cells A → Nodes A
  made m blank p x xs =
      store
        (store (store m p (some (record { next = 0; value = blank }))) p
          (some (record { next = 0; value = x })))
        p (cell xs x)

  abbrev pushed : Nodes A → (blank : A) → ℕ → A → ℕ → A → Cells A → Nodes A
  pushed m blank b v p x xs = store (made m blank p x xs) b (some (record { next = p; value = v }))

  made_kept :
      (m : Nodes A) (blank : A) (p : ℕ) (x : A) (xs : Cells A) (q : ℕ)
      → q ≢ p
      → made m blank p x xs q ≡ m q
  made_kept m blank p x xs q ne = store_ne _ p q _ ne ∙ store_ne _ p q _ ne ∙ store_ne m p q _ ne

  -- What `push_after` leaves of the list `pre`, `b`, `xs` with a new node at `p`.
  pub record Pushed (m : Nodes A) (pre : Cells A) (b : ℕ) (v : A) (p : ℕ) (x : A) (xs : Cells A)
      (r : Nodes A × ℕ) : Type 0 where
    pub linked : Linked r.0 (pre ++ (b, v) ∷ (p, x) ∷ xs)
    pub returned : r.1 ≡ p
    pub kept : (q : ℕ) → q ≢ b → q ≢ p → r.0 q ≡ m q

  pub push_after_lem :
      (m : Nodes A) (blank : A) (b : ℕ) (v : A) (p : ℕ) (x : A) (xs : Cells A)
      → p ≢ 0
      → p ≢ b
      → Linked m ((b, v) ∷ xs)
      → push_after m blank p b x ≡ ok (pushed m blank b v p x xs, p)
  unfolding push_after allocate set_value set_next basic_push_after
  push_after_lem m blank b v p x xs some_p apart h =
      let flip : b ≢ p = λ e. apart (sym e) in
      let t : (p == 0) ≡ false = ground arith in
      let m1 = store m p (some (record { next = 0; value = blank })) in
      let m2 = store m1 p (some (record { next = 0; value = x })) in
      let one = load_lem m1 p _ some_p (store_self m p _) in
      let at_b = load_lem m2 b _ h.0 (store_ne _ p b _ flip ∙ store_ne m p b _ flip ∙ h.2) in
      let two = load_lem m2 p _ some_p (store_self m1 p _) in
      let three = load_lem (made m blank p x xs) b _ h.0 (made_kept m blank p x xs b flip ∙ h.2) in
      rw (t, one, at_b, two, three) refl

  pushed-Linked :
      (m : Nodes A) (blank : A) (b : ℕ) (v : A) (p : ℕ) (x : A) (xs : Cells A)
      → p ≢ 0
      → m p ≡ none
      → p ≢ b
      → Linked m ((b, v) ∷ xs)
      → Linked (pushed m blank b v p x xs) ((b, v) ∷ (p, x) ∷ xs)
  pushed-Linked m blank b v p x xs some_p free apart h =
      let out = none-Outside m p xs free h.3 in
      (
        h.0,
        ((λ e. apart (sym e)), h.1),
        store_self _ b _,
        (
          some_p,
          out,
          store_ne _ b p _ apart ∙ store_self _ p _,
          Linked-store _ b _ xs h.1 (
              Linked-store _ p _ xs out
                (Linked-store _ p _ xs out (Linked-store m p _ xs out h.3))),
        ),
      )

  pub Disjoint-add :
      (m : Nodes A) (pre : Cells A) (b : ℕ) (v : A) (p : ℕ) (x : A) (xs : Cells A)
      → Outside p pre
      → Disjoint pre ((b, v) ∷ xs)
      → Disjoint pre ((b, v) ∷ (p, x) ∷ xs)
  Disjoint-add m [] b v p x xs out h = tt
  Disjoint-add m ((q, u) ∷ pre) b v p x xs out h =
      ((h.0.0, ((λ e. out.0 (sym e)), h.0.1)), Disjoint-add m pre b v p x xs out.1 h.1)

  -- `push_after` a node of a list returns, where the allocator answers a free address that is not
  -- null: the list has a node of the value in the next place and is otherwise as before, the answer
  -- is this node, and nothing outside of the two nodes changes.
  pub push_after-Pushed :
      (m : Nodes A) (blank : A) (pre : Cells A) (b : ℕ) (v : A) (p : ℕ) (x : A) (xs : Cells A)
      → p ≢ 0
      → m p ≡ none
      → Linked m (pre ++ (b, v) ∷ xs)
      → Returns (Pushed m pre b v p x xs) (push_after m blank p b x)
  push_after-Pushed m blank pre b v p x xs some_p free h =
      let tail = Linked-right m pre _ h in
      let out = none-Outside m p _ free h in
      let apart : p ≢ b = (Outside-right p pre _ out).0 in
      let kept : (q : ℕ) → q ≢ b → q ≢ p → pushed m blank b v p x xs q ≡ m q =
        λ q nb np. store_ne _ b q _ nb ∙ made_kept m blank p x xs q np in
      ok-Returns _ _ _ (push_after_lem m blank b v p x xs some_p apart tail) (record {
        linked =
            Linked-splice m _ pre _ ((b, v) ∷ (p, x) ∷ xs) refl (λ q old new. kept q old.0 new.1.0)
              (Disjoint-add m pre b v p x xs (Outside-left p pre _ out) (Linked-apart m pre _ h))
              (pushed-Linked m blank b v p x xs some_p free apart tail) h;
        returned = refl;
        kept = kept;
      })

  -- Without memory nothing is added, and the answer is `end()`.
  pub push_after_full :
      (m : Nodes A) (blank : A) (b : ℕ) (x : A) → push_after m blank 0 b x ≡ ok (m, 0)
  unfolding push_after allocate
  push_after_full m blank b x = refl

  undone :
      (m : Nodes A) (blank : A) (b : ℕ) (v : A) (p : ℕ) (x : A) (xs : Cells A) (q : ℕ)
      → m p ≡ none
      → m b ≡ cell xs v
      → erased (pushed m blank b v p x xs) b v p xs q ≡ m q
  undone m blank b v p x xs q free at_b = elim (ℕ_discrete q p) [
    | yes e ↦ rw e (store_self _ p none ∙ sym free)
    | no np ↦ store_ne _ p q none np ∙ elim (ℕ_discrete q b) [
      | yes e ↦ rw e (store_self _ b _ ∙ sym at_b)
      | no nb ↦ store_ne _ b q _ nb ∙ store_ne _ b q _ nb ∙ made_kept m blank p x xs q np
    ]
  ]

  -- On a list, `pop_front` after `push_front` gives all nodes back as they were, where the
  -- allocator answers a free address that is not null.
  pub pop_front-push_front :
      (m : Nodes A) (blank : A) (b : ℕ) (v : A) (p : ℕ) (x : A) (xs : Cells A)
      → p ≢ 0
      → m p ≡ none
      → Linked m ((b, v) ∷ xs)
      → (do (m', position) ← push_front m blank p b x; pop_front m' b) ≡ ok m
  unfolding push_front pop_front
  pop_front-push_front m blank b v p x xs some_p free h =
      let apart : p ≢ b = (none-Outside m p ((b, v) ∷ xs) free h).0 in
      let g = pushed m blank b v p x xs in
      rw (push_after_lem m blank b v p x xs some_p apart h) (
        erase_after_lem g b v p x xs (pushed-Linked m blank b v p x xs some_p free apart h)
        ∙ ap ok (fun_ext λ q. undone m blank b v p x xs q free h.2))
