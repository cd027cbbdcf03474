-- ===== src/PathNodes/Costs.antt =====
-- What stays true of the nodes of the path search of src/map.cpp.
use otservbr_global.Common.{
  ℕ, zero, suc, ◌+◌, ◌≤◌, ◌<◌, ◌≡◌, refl, sym, ap, ◌∙◌, ◌⊎◌, inl, inr, Bool, true, false, some,
  arith, ◌==◌, if◌then◌else◌, ==_iff, Bool-cases, if_elim,
}
use otservbr_global.Common.Places.{write_at, write_at-field}
use otservbr_global.PathNodes.{Node, Nodes, max_nodes, key_of, created, open_node, cheaper}

-- How many of the first nodes are closed.
unfoldable pub count_closed : (ℕ → Bool) → ℕ → ℕ
count_closed o zero = 0
count_closed o (suc n) = count_closed o n + (if o n then 0 else 1)

-- The parent of a node is there and cheaper.
abbrev pub Descends : (ℕ → Node) → ℕ → ℕ → Type 0
Descends nodes cur i = (p : ℕ) → (nodes i).parent ≡ some p → (p < cur) × ((nodes p).f < (nodes i).f)

-- A node is dearer than its parent, the table leads to nodes that are there, and the number of closed
-- nodes is right.
pub record IsSearch (ns : Nodes) : Type 0 where
  pub bounded : ns.cur_node ≤ max_nodes
  pub descends : (i : ℕ) → i < ns.cur_node → Descends ns.nodes ns.cur_node i
  pub in_table :
      (k i : ℕ)
      → ns.node_table k ≡ some i
      → (i < ns.cur_node) × (key_of ((ns.nodes i).x) ((ns.nodes i).y) ≡ k)
  pub counted : ns.closed_nodes ≡ count_closed ns.is_open ns.cur_node

count_closed-beyond :
    (o : ℕ → Bool) (i n : ℕ) (b : Bool) → n ≤ i → count_closed (write_at i b o) n ≡ count_closed o n
unfolding count_closed write_at
count_closed-beyond o i zero b le = refl
count_closed-beyond o i (suc n) b le =
    ground (arith, le, count_closed-beyond o i n b (omega (arith, le)))

pub count_closed-write :
    (o : ℕ → Bool) (i n : ℕ) (b : Bool)
    → i < n
    → count_closed (write_at i b o) n + (if o i then 0 else 1)
      ≡ count_closed o n + (if b then 0 else 1)
unfolding count_closed write_at
count_closed-write o i zero b lt = absurd (omega (arith, lt))
count_closed-write o i (suc n) b lt = elim (Bool-cases (n == i)) [
  | inl e ↦
      let same : n ≡ i = ground (arith, e) in
      let there : (if o n then 0 else 1) ≡ (if o i then 0 else 1) =
        ap {B = ℕ} (λ k. if o k then 0 else 1) same in
      rw e (omega (arith, there, count_closed-beyond o i n b (omega (arith, same))))
  | inr e ↦ rw e (omega (arith, count_closed-write o i n b (ground (arith, e, lt))))
]

pub at_same {ℓ} : {A : Type ℓ} (i : ℕ) (v : A) (f : ℕ → A) → write_at i v f i ≡ v
unfolding write_at
at_same i v f = let e : (i == i) ≡ true = ground arith in rw e refl

pub at_other {ℓ} :
    {A : Type ℓ} (i j : ℕ) (v : A) (f : ℕ → A) → (j == i) ≡ false → write_at i v f j ≡ f j
unfolding write_at
at_other i j v f e = rw e refl

-- A write to one node that makes it a child of a cheaper one, where its children stay dearer.
write_at-Descends :
    (nodes : ℕ → Node) (cur k n : ℕ) (v : Node)
    → n < cur
    → (n == k) ≡ false
    → v.parent ≡ some n
    → (nodes n).f < v.f
    → ((i : ℕ) → i < cur → (i == k) ≡ false → Descends nodes cur i)
    → ((i p : ℕ)
        → i < cur
        → (i == k) ≡ false
        → (nodes i).parent ≡ some p
        → ((p == k) ≡ false) ⊎ (v.f ≤ (nodes k).f))
    → (i : ℕ) → i < cur
    → Descends (write_at k v nodes) cur i
write_at-Descends nodes cur k n v lt other up dear old lower i lt' p e =
    elim (Bool-cases (i == k)) [
      | inl s ↦
          let at_k : write_at k v nodes i ≡ v =
            ap (write_at k v nodes) ((==_iff i k).0 s) ∙ at_same k v nodes in
          let same : n ≡ p = cc (ap (λ x. x.parent) at_k, e, up) in
          let parent_is : (write_at k v nodes p).f ≡ (nodes n).f =
            ap (λ q. (write_at k v nodes q).f) (sym same)
            ∙ ap (λ x. x.f) (at_other k n v nodes other) in
          (omega (arith, lt, same), omega (arith, parent_is, dear, ap (λ x. x.f) at_k))
      | inr s ↦
          let at_i : write_at k v nodes i ≡ nodes i = at_other k i v nodes s in
          let e' : (nodes i).parent ≡ some p = sym (ap (λ x. x.parent) at_i) ∙ e in
          let h = old i lt' s p e' in
          elim (Bool-cases (p == k)) [
            | inr s' ↦ (
              h.0,
              omega (arith, h.1, ap (λ x. x.f) at_i, ap (λ x. x.f) (at_other k p v nodes s')),
            )
            | inl s' ↦ elim (lower i p lt' s e') [
              | inl apart ↦ absurd (cc (apart, s'))
              | inr le ↦
                  let same : p ≡ k = (==_iff p k).0 s' in
                  let at_p : (write_at k v nodes p).f ≡ v.f =
                    ap (λ q. (write_at k v nodes q).f) same ∙ ap (λ x. x.f) (at_same k v nodes) in
                  (
                    h.0,
                    omega (arith, h.1, le, at_p, ap (λ x. x.f) at_i, ap (λ q. (nodes q).f) same),
                  )
            ]
          ]
    ]

abbrev key : Node → ℕ
key v = key_of v.x v.y

pub apart_from : (n k : ℕ) (ns : Nodes) → (ns.nodes n).f < (ns.nodes k).f → (n == k) ≡ false
apart_from n k ns lt = elim (Bool-cases (n == k)) [
  | inr e ↦ e
  | inl e ↦ absurd (omega (arith, lt, ap (λ q. (ns.nodes q).f) ((==_iff n k).0 e)))
]

pub created-IsSearch :
    (n x y f : ℕ) (ns : Nodes)
    → IsSearch ns
    → n < ns.cur_node
    → (ns.nodes n).f < f
    → ns.cur_node < max_nodes
    → IsSearch (created n x y f ns)
unfolding count_closed
created-IsSearch n x y f ns h lt dear room =
    let cur = ns.cur_node in
    let v : Node = record { parent = some n; f = f; x = x; y = y } in
    record {
      bounded = omega (arith, room);
      descends =
          write_at-Descends ns.nodes (cur + 1) cur n v (omega (arith, lt)) (ground (arith, lt)) refl
            dear
            (λ i lt' s p e.
              let d = h.descends i (ground (arith, lt', s)) p e in (omega (arith, d.0), d.1))
            (λ i p lt' s e.
              let d = h.descends i (ground (arith, lt', s)) p e in inl (ground (arith, d.0)));
      in_table = λ k i e. elim (Bool-cases (k == key_of x y)) [
        | inl s ↦
            let here : i ≡ cur = cc (
              ap (write_at (key_of x y) (some cur) ns.node_table) ((==_iff k (key_of x y)).0 s),
              at_same (key_of x y) (some cur) ns.node_table,
              e,
            ) in
            (
              omega (arith, here),
              ap (λ j. key (write_at cur v ns.nodes j)) here
                  ∙ ap key (at_same cur v ns.nodes)
                  ∙ sym ((==_iff k (key_of x y)).0 s),
            )
        | inr s ↦
            let t = h.in_table k i (sym (at_other (key_of x y) k (some cur) ns.node_table s) ∙ e) in
            (omega (arith, t.0), ap key (at_other cur i v ns.nodes (ground (arith, t.0))) ∙ t.1)
      ];
      counted =
          let grown : cur + 1 ≡ suc cur = omega arith in
          let last : (if write_at cur true ns.is_open cur then 0 else 1) ≡ 0 =
            ap {B = ℕ} (λ b. if b then 0 else 1) (at_same cur true ns.is_open) in
          let before = count_closed-beyond ns.is_open cur cur true (omega arith) in
          omega (
            arith,
            h.counted,
            ap (count_closed (write_at cur true ns.is_open)) grown,
            last,
            before,
          );
    }

pub cheaper-IsSearch :
    (k n f : ℕ) (ns : Nodes)
    → IsSearch ns
    → k < ns.cur_node
    → n < ns.cur_node
    → (ns.nodes n).f < f
    → f < (ns.nodes k).f
    → IsSearch (cheaper k n f ns)
unfolding open_node
cheaper-IsSearch k n f ns h lt lt' dear less =
    let v : Node = record (ns.nodes k) { f = f; parent = some n } in
    let relaxed = record ns { nodes = write_at k v ns.nodes } in
    let other : (n == k) ≡ false = apart_from n k ns (omega (arith, dear, less)) in
    let d =
      write_at-Descends ns.nodes ns.cur_node k n v lt' other refl dear (λ i l s. h.descends i l)
        (λ i p l s e. inr (omega (arith, less))) in
    let table : (j i : ℕ)
        → ns.node_table j ≡ some i
        → (i < ns.cur_node) × (key (write_at k v ns.nodes i) ≡ j) =
      λ j i e.
        let t = h.in_table j i e in
        (
          t.0,
          write_at-field key k v ns.nodes i
              ∙ if_elim (λ z. z ≡ key (ns.nodes i)) (i == k)
                  (λ s. ap (λ m. key (ns.nodes m)) (sym ((==_iff i k).0 s))) (λ _. refl)
              ∙ t.1,
        ) in
    if_elim IsSearch (ns.is_open k)
      (λ _. record { bounded = h.bounded; descends = d; in_table = table; counted = h.counted })
      (λ closed. record {
        bounded = h.bounded;
        descends = d;
        in_table = table;
        counted = omega (
          arith,
          h.counted,
          count_closed-write ns.is_open k ns.cur_node true lt,
          ap {B = ℕ} (λ b. if b then 0 else 1) closed,
        );
      })
