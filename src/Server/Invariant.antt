-- ===== src/Server/Invariant.antt =====
-- The well-formedness of the list of processes of server/process.c.
use s3d.Base.{
  ℕ, ◌<◌, ◌≡◌, ◌≢◌, ap, arith, true, some, Option-cases, inl, inr, List, length, get_elem?,
}
use s3d.Object.{Obj, obj_valid, minus_one}
use s3d.Object.Links.View.{node}
use s3d.Object.Links.Forest.{IsForest}
use s3d.Server.{Process, mcp_objects, get_proc_by_pid}
use s3d.Server.Tags.{tag_at, tag_if, tag_of}
use s3d.Server.Lists.{get_elem?-some_lt}

-- The mcp is there, every process carries its place in the list as its id, the links of its objects form
-- a forest, and for every program with an object of the mcp this is a virtual object that carries the
-- number of the program; but for the program `gone`, if that is not 0.
pub record IsServerBut {F : Type 0} (ps : List (Process F)) (gone : ℕ) : Type 0 where
  pub some_mcp : 0 < length ps
  pub ids : (i : ℕ) (p : Process F) → get_elem? ps i ≡ some p → p.id ≡ i
  pub forests : (i : ℕ) (p : Process F) → get_elem? ps i ≡ some p → IsForest (node p.object)
  pub registered :
      (i : ℕ) (p : Process F)
      → get_elem? ps i ≡ some p
      → 0 < i
      → i ≢ gone
      → p.mcp_oid ≢ minus_one
      → tag_at (mcp_objects ps) p.mcp_oid ≡ some (i, true)

abbrev pub IsServer : {F : Type 0} → List (Process F) → Type 0
IsServer ps = IsServerBut ps 0

-- In a well-formed list the object of the mcp that a program has leads back to the program.
pub get_proc_by_pid-registered :
    {F : Type 0} (ps : List (Process F)) (pid : ℕ) (p : Process F)
    → IsServer ps
    → get_elem? ps pid ≡ some p
    → 0 < pid
    → p.mcp_oid ≢ minus_one
    → (o : Obj F) × (obj_valid (mcp_objects ps) p.mcp_oid ≡ some o)
      × (get_proc_by_pid ps o.virtual_pid ≡ some p)
unfolding get_proc_by_pid tag_at
get_proc_by_pid-registered ps pid p h e pos m =
    elim (Option-cases (obj_valid (mcp_objects ps) p.mcp_oid)) [
      | inl f ↦ ground (arith, ap tag_if f, h.registered pid p e pos (ground arith) m)
      | inr (o, f) ↦
          let tag : tag_if (obj_valid (mcp_objects ps) p.mcp_oid) ≡ some (tag_of o) = ap tag_if f in
          let same : o.virtual_pid ≡ pid =
            ground (arith, tag, h.registered pid p e pos (ground arith) m) in
          (o, f, rw same (ground (arith, e, get_elem?-some_lt ps pid e)))
    ]
