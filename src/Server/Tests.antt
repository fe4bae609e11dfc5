-- ===== src/Server/Tests.antt =====
-- A server with the mcp and two programs, and the theorems on it.
use s3d.Base.{
  ℕ, zero, suc, ◌-◌, ◌≡◌, ◌≢◌, ◌&&◌, refl, arith, true, false, none, some, some_of_eq, List, [],
  ◌∷◌, length, get_elem?, if◌then◌else◌, ltb, ◌==◌,
}
use s3d.Object.{Floats, Status, done, failed, minus_one, obj_valid}
use s3d.Object.Links.Life.{obj_new}
use s3d.Object.Links.Reach.{no_objects-IsForest}
use s3d.Server.{
  Process, con_tcp, Server, mcp_objects, process_add, process_list_rm, process_del, register,
  stand_for,
}
use s3d.Server.Tags.{tag_at}
use s3d.Server.Invariant.{IsServer}
use s3d.Server.Moves.{process_list_rm-moves}
use s3d.Server.Deleted.{process_del-IsServer}
use s3d.Server.Joined.{process_add-IsServer}
use s3d.Server.Registered.{register-IsServer, with_object, with_object-IsServer}

abbrev naturals : Floats ℕ
naturals = record {
  zero_f = 0;
  add = λ a b. a;
  mul = λ a b. a;
  div = λ a b. a;
  sqrt = λ a. a;
  is_zero = λ a. a == 0;
}

abbrev mcp : Process ℕ
mcp = record { id = 0; con_type = con_tcp; name = []; mcp_oid = minus_one; object = [] }

abbrev program : ℕ → Process ℕ
program pid = record { id = pid; con_type = con_tcp; name = []; mcp_oid = minus_one; object = [] }

only_at : (i : ℕ) (p : Process ℕ) → get_elem? (mcp ∷ []) i ≡ some p → (i ≡ 0) × (mcp ≡ p)
only_at zero p e = (refl, some_of_eq e)
only_at (suc i) p e = cc

only_mcp-IsServer : IsServer (mcp ∷ [])
only_mcp-IsServer = record {
  some_mcp = omega arith;
  ids = λ i p e. let (z, same) = only_at i p e in rw (← same, z) refl;
  forests = λ i p e. rw (← (only_at i p e).1) (no_objects-IsForest ℕ);
  registered = λ i p e pos ne m. absurd (omega (arith, (only_at i p e).0));
}

abbrev two : List (Process ℕ)
two = mcp ∷ program 1 ∷ []

two-IsServer : IsServer two
unfolding process_add
two-IsServer = process_add-IsServer (mcp ∷ []) con_tcp only_mcp-IsServer

abbrev three : List (Process ℕ)
three = mcp ∷ program 1 ∷ program 2 ∷ []

three-IsServer : IsServer three
unfolding process_add
three-IsServer = process_add-IsServer two con_tcp two-IsServer

first_free : (obj_new naturals 1 []).0 ≢ minus_one
unfolding obj_new
first_free = omega arith

abbrev server : Server ℕ
server = record { procs = three; focus_oid = minus_one; sent = [] }

register-IsServer_example :
    (s' : Server ℕ) × (q : Process ℕ) × (register naturals 1 true (67, []) server 2 (program 2)
      ≡ some s')
    × IsServer s'.procs
    × (get_elem? s'.procs 2 ≡ some q)
    × (q.mcp_oid ≡ (obj_new naturals 1 []).0)
    × (tag_at (mcp_objects s'.procs) q.mcp_oid ≡ some (2, true))
register-IsServer_example =
    register-IsServer naturals 1 true (67, []) server 2 (program 2) three-IsServer (omega arith)
      refl first_free

-- program 2 has object 0 of the mcp
abbrev logged_in : Server ℕ
logged_in = record server {
  procs = with_object naturals 1 three 2 (program 2) three-IsServer (omega arith) refl first_free;
}

logged_in-IsServer : IsServer logged_in.procs
logged_in-IsServer =
    with_object-IsServer naturals 1 three 2 (program 2) three-IsServer (omega arith) refl first_free

process_del-IsServer_example :
    (status : Status) × (s' : Server ℕ) × (process_del 0 false logged_in 1 ≡ some (status, s'))
    × IsServer s'.procs
    × (status ≡ (if ltb 1 3 then done else failed))
    × (3 ≡ (if ltb 0 1 && ltb 1 3 then suc (length s'.procs) else length s'.procs))
process_del-IsServer_example = process_del-IsServer 0 false logged_in 1 logged_in-IsServer

process_list_rm-moves_example : get_elem? (process_list_rm three 1) 1 ≡ (
    if 2 == 3
    then none
    else if 1 == 1
    then (elim (get_elem? three (3 - 1)) [
      | none ↦ none
      | some last ↦ some (record last { id = 1 })
    ])
    else get_elem? three 1)
process_list_rm-moves_example = process_list_rm-moves three 1 0 (omega arith) (omega arith)

-- The object of program 2 carries the number 1 when program 1 is gone.
renumbered : tag_at (mcp_objects (process_list_rm logged_in.procs 1)) 0 ≡ some (1, true)
unfolding tag_at process_list_rm obj_new obj_valid stand_for
renumbered = refl
