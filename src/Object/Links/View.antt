-- ===== src/Object/Links/View.antt =====
-- What the links of server/object.c read of an object, and how a write through OBJ_VALID changes it.
use s3d.Base.{
  ℕ, ◌≡◌, ◌≢◌, refl, sym, Bool, true, false, not, ◌&&◌, Option, none, some, Option-cases,
  Bool-cases, ==_iff, inl, inr, if◌then◌else◌, ◌==◌,
}
use s3d.Object.{minus_one, Obj, Table, obj_valid}
use s3d.Object.Frame.{obj_valid-set}
use s3d.Object.Links.{update, has_flag, of_link}

-- the fields that the links are made of; `there` is OBJ_VALID, `linked` the flag OF_LINK
pub record Node : Type 0 where
  pub there : Bool
  pub parent : ℕ
  pub next : ℕ
  pub prev : ℕ
  pub sub : ℕ
  pub linked : Bool

abbrev pub absent : Node
absent = record {
  there = false;
  parent = minus_one;
  next = minus_one;
  prev = minus_one;
  sub = minus_one;
  linked = false;
}

abbrev pub node_of : {F : Type 0} → Obj F → Node
node_of o = record {
  there = true;
  parent = o.linkid;
  next = o.lnext;
  prev = o.lprev;
  sub = o.lsub;
  linked = has_flag of_link o.oflags;
}

abbrev pub node_at : {F : Type 0} → Option (Obj F) → Node
node_at none = absent
node_at (some o) = node_of o

unfoldable pub node : {F : Type 0} → Table F → ℕ → Node
node t i = node_at (obj_valid t i)

module _ {F : Type 0} where
  -- the node in a slot that is written
  node_at-same :
      (t : Table F) (id : ℕ) (change : Obj F → Obj F) (step : Node → Node)
      → ((o : Obj F) → node_of (change o) ≡ step (node_of o))
      → node (update t id change) id ≡ (if (node t id).there then step (node t id) else node t id)
  unfolding node update
  node_at-same t id change step h = elim (Option-cases (obj_valid t id)) [
    | inl e ↦ rw (e, update, e, node) refl
    | inr (o, e) ↦
        rw (e, update, obj_valid-set t id id (change o) e, (==_iff id id).1 refl, node) (h o)
  ]

  node_at-other :
      (t : Table F) (id j : ℕ) (change : Obj F → Obj F)
      → (id == j) ≡ false
      → node (update t id change) j ≡ node t j
  unfolding node update
  node_at-other t id j change other = elim (Option-cases (obj_valid t id)) [
    | inl e ↦ rw (e, update) refl
    | inr (o, e) ↦ rw (e, update, obj_valid-set t id j (change o) e, other) refl
  ]

  -- A write changes the node at its id, if that is there, and no other.
  pub node-update :
      (t : Table F) (id j : ℕ) (change : Obj F → Obj F) (step : Node → Node)
      → ((o : Obj F) → node_of (change o) ≡ step (node_of o))
      → node (update t id change) j
        ≡ (if (id == j) && (node t j).there then step (node t j) else node t j)
  node-update t id j change step h = elim (Bool-cases (id == j)) [
    | inl same ↦ rw same (rw (sym ((==_iff id j).0 same)) (node_at-same t id change step h))
    | inr other ↦ rw other (node_at-other t id j change other)
  ]

-- The links of a process are well formed: the two directions of a list of children agree, its members
-- have the same parent, it starts at the parent's `lsub`, and whoever has no parent is in no list.
pub record IsLinked (n : ℕ → Node) : Type 0 where
  pub bounded : (n minus_one).there ≡ false
  pub gone : (i : ℕ) → (n i).there ≡ false → n i ≡ absent
  pub next_ok :
      (i : ℕ)
      → (n i).next ≢ minus_one
      → ((n (n i).next).prev ≡ i) × ((n (n i).next).parent ≡ (n i).parent)
  pub prev_ok :
      (i : ℕ)
      → (n i).prev ≢ minus_one
      → ((n (n i).prev).next ≡ i) × ((n (n i).prev).parent ≡ (n i).parent)
  pub sub_ok :
      (i : ℕ)
      → (n i).sub ≢ minus_one
      → ((n (n i).sub).parent ≡ i) × ((n (n i).sub).prev ≡ minus_one)
  pub first_ok :
      (i : ℕ) → (n i).parent ≢ minus_one → (n i).prev ≡ minus_one → (n (n i).parent).sub ≡ i
  pub free_ok :
      (i : ℕ) → (n i).parent ≡ minus_one → ((n i).next ≡ minus_one) × ((n i).prev ≡ minus_one)
  pub parent_ok : (i : ℕ) → (n i).parent ≢ minus_one → (n (n i).parent).there ≡ true
  pub flag_ok : (i : ℕ) → (n i).linked ≡ not ((n i).parent == minus_one)
