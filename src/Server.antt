-- ===== src/Server.antt =====
-- The processes of the server, of server/process.c: the list of the programs that are connected, each
-- with its table of objects. Process 0 is the mcp; every other program is a virtual object of the mcp,
-- whose number is its `mcp_oid` and which carries its number, `virtual_pid`. The fuel of `obj_free` is
-- one more than the entries of the table. What `free` gives back is not in the state.
pub mod Tags
pub mod Untagged
pub mod Frees
pub mod Lists
pub mod Invariant
pub mod Removed
pub mod Moves
pub mod Kept
pub mod Deleted
pub mod Joined
pub mod Registered
mod Tests
use s3d.Base.{
  ℕ, zero, suc, ◌+◌, ◌-◌, ◌&&◌, ◌||◌, Bool, true, false, Option, none, some, List, [], ◌∷◌, ◌++◌,
  length, take, set, get_elem?, if◌then◌else◌, ltb, ◌==◌,
}
use s3d.Object.{minus_one, Floats, Obj, Table, Status, done, failed, obj_valid}
use s3d.Object.Links.{of_system, has_flag, set_flag, clear_flag, update}
use s3d.Object.Links.Life.{obj_new, obj_free}
use s3d.Object.Clones.{of_clone, of_virtual}
use s3d.Events.Sent.{Report, deleted_packet}

abbrev pub of_visible : ℕ
of_visible = 1

abbrev pub of_selectable : ℕ
of_selectable = 2

-- CON_NULL, CON_TCP and CON_SHM
pub data Connection : Type 0 where
  con_null con_tcp con_shm : Connection

-- `struct t_process`, without the sockets and what is kept for the drawing
pub record Process (F : Type 0) : Type 0 where
  pub id : ℕ
  pub con_type : Connection
  pub name : List ℕ
  pub mcp_oid : ℕ
  pub object : Table F

-- `procs_p`, whose length is `procs_n`, `focus_oid`, and what was sent to the mcp
pub record Server (F : Type 0) : Type 0 where
  pub procs : List (Process F)
  pub focus_oid : ℕ
  pub sent : List Report

module _ {F : Type 0} where
  unfoldable pub get_proc_by_pid : List (Process F) → ℕ → Option (Process F)
  get_proc_by_pid ps pid = if ltb pid (length ps) then get_elem? ps pid else none

  -- `process_add`, with the connection that its caller puts in
  unfoldable pub process_add : List (Process F) → Connection → List (Process F)
  process_add ps con =
      ps
      ++ (record { id = length ps; con_type = con; name = []; mcp_oid = minus_one; object = [] }
          ∷ [])

  -- `procs_p[0].object`, and a change of it
  abbrev pub mcp_objects : List (Process F) → Table F
  mcp_objects [] = []
  mcp_objects (p ∷ ps) = p.object

  abbrev pub with_mcp : List (Process F) → (Table F → Table F) → List (Process F)
  with_mcp [] f = []
  with_mcp (p ∷ ps) f = record p { object = f p.object } ∷ ps

  -- the change of the place and the number of the last process
  unfoldable pub move_last : List (Process F) → ℕ → Process F → List (Process F)
  unfolding update
  move_last ps pid last =
      let ps1 = set ps pid (record last { id = pid }) in
      if last.mcp_oid == minus_one
      then ps1
      else with_mcp ps1 (λ t. update t last.mcp_oid (λ o. record o { virtual_pid = pid }))

  unfoldable pub process_list_rm : List (Process F) → ℕ → List (Process F)
  unfolding move_last
  process_list_rm ps pid = take (length ps - 1) (
      if suc pid == length ps
      then ps
      else elim (get_elem? ps (length ps - 1)) [ none ↦ ps | some last ↦ move_last ps pid last ])

  -- `n_remove`, after the connection is closed
  unfoldable pub n_remove : List (Process F) → ℕ → List (Process F)
  n_remove ps pid = elim (get_elem? ps pid) [
    | none ↦ ps
    | some p ↦ set ps pid (record p { con_type = con_null })
  ]

  -- the loop of `p_del` over the objects of the mcp: what is a clone of that object is none any more
  unfoldable pub drop_clones : F → Table F → ℕ → Table F
  drop_clones zero_f [] oid = []
  drop_clones zero_f (none ∷ t) oid = none ∷ drop_clones zero_f t oid
  drop_clones zero_f (some o ∷ t) oid =
      some (
        if has_flag of_clone o.oflags && (o.clone_ooid == oid)
        then record o { oflags = clear_flag of_clone o.oflags; clone_ooid = 0; r = zero_f }
        else o)
      ∷ drop_clones zero_f t oid

  unfoldable pub free_object : Table F → ℕ → Option (Table F)
  unfolding obj_free
  free_object t oid = obj_free (suc (length t)) t oid

  -- The loops of `p_del` that free objects, from number `i` on: those that `keep` does not name.
  unfoldable pub free_where : (Obj F → Bool) → ℕ → Table F → ℕ → Option (Table F)
  unfolding free_object
  free_where keep zero t i = some t
  free_where keep (suc rounds) t i = elim (obj_valid t i) [
    | none ↦ free_where keep rounds t (suc i)
    | some o ↦ elim (keep o) [
      | true ↦ free_where keep rounds t (suc i)
      | false ↦ elim (free_object t i) [ none ↦ none | some t' ↦ free_where keep rounds t' (suc i) ]
    ]
  ]

  -- the mcp keeps what is of the system or stands for a program
  unfoldable pub of_mcp : Obj F → Bool
  of_mcp o = has_flag of_system o.oflags || has_flag of_virtual o.oflags

  -- `p_del` for the mcp, behind `n_remove`
  unfoldable pub mcp_del : Server F → Option (Server F)
  unfolding free_where n_remove of_mcp
  mcp_del s = elim (free_where of_mcp (length (mcp_objects s.procs)) (mcp_objects s.procs) 0) [
    | none ↦ none
    | some t ↦ some (record s { procs = with_mcp (n_remove s.procs 0) (λ _. t) })
  ]

  -- `prot_com_out` to the mcp; `fails` is whether `n_writen` fails
  unfoldable pub send_mcp : Bool → Server F → Report → Option (Server F)
  unfolding mcp_del
  send_mcp fails s packet = elim (get_elem? s.procs 0) [
    | none ↦ some s
    | some p ↦ elim p.con_type [
      | con_null ↦ some s
      | con_tcp ↦ (if fails then mcp_del s else some (record s { sent = s.sent ++ (packet ∷ []) }))
      | con_shm ↦ (if fails then mcp_del s else some (record s { sent = s.sent ++ (packet ∷ []) }))
    ]
  ]

  unfoldable pub mcp_del_object : Bool → Server F → ℕ → Option (Server F)
  unfolding send_mcp
  mcp_del_object fails s mcp_oid =
      send_mcp fails
        (record s { focus_oid = if mcp_oid == s.focus_oid then minus_one else s.focus_oid })
        (deleted_packet mcp_oid)

  -- the part of `p_del` about the object of the mcp
  unfoldable pub unregister : F → Bool → Server F → Process F → Option (Server F)
  unfolding drop_clones free_object mcp_del_object
  unregister zero_f fails s p =
      if p.mcp_oid == minus_one
      then some s
      else elim (free_object (drop_clones zero_f (mcp_objects s.procs) p.mcp_oid) p.mcp_oid) [
        | none ↦ none
        | some t ↦ mcp_del_object fails (record s { procs = with_mcp s.procs (λ _. t) }) p.mcp_oid
      ]

  -- `p_del` for the other programs, and the removal from the list; `p` is the process of that number
  unfoldable pub app_del : F → Bool → Server F → ℕ → Process F → Option (Server F)
  unfolding unregister free_where process_list_rm
  app_del zero_f fails s pid p = elim (unregister zero_f fails s p) [
    | none ↦ none
    | some s1 ↦ elim (free_where (λ o. false) (length p.object) p.object 0) [
      | none ↦ none
      | some t ↦ some (record s1 { procs = process_list_rm s1.procs pid })
    ]
  ]

  unfoldable pub process_del : F → Bool → Server F → ℕ → Option (Status × Server F)
  unfolding mcp_del app_del n_remove
  process_del zero_f fails s pid =
      if pid == 0
      then elim (mcp_del s) [ none ↦ none | some s' ↦ some (done, s') ]
      else elim (get_elem? (n_remove s.procs pid) pid) [
        | none ↦ some (failed, s)
        | some p ↦ elim (app_del zero_f fails (record s { procs = n_remove s.procs pid }) pid p) [
          | none ↦ none
          | some s' ↦ some (done, s')
        ]
      ]

  -- `mcp_focus` for an object
  unfoldable pub mcp_focus : Server F → ℕ → Server F
  mcp_focus s oid = elim (obj_valid (mcp_objects s.procs) oid) [
    | none ↦ record s { focus_oid = minus_one }
    | some o ↦ record s { focus_oid = if has_flag of_virtual o.oflags then oid else minus_one }
  ]

  -- the object of the mcp for the program `pid`
  unfoldable pub stand_for : Obj F → ℕ → Obj F
  stand_for o pid = record o {
    oflags = set_flag of_virtual (set_flag of_visible (set_flag of_selectable o.oflags));
    virtual_pid = pid;
  }

  -- `if (mcp_p->con_type == CON_NULL) mcp_focus (mcp_oid)`
  unfoldable pub focus_new : Server F → ℕ → Server F
  unfolding mcp_focus
  focus_new s oid = elim (get_elem? s.procs 0) [
    | none ↦ s
    | some p ↦ elim p.con_type [ con_null ↦ mcp_focus s oid | con_tcp ↦ s | con_shm ↦ s ]
  ]

  -- The end of `process_protinit`: the program `pid`, of the process `p`, gets an object of the mcp.
  -- `packet` is the report of `mcp_rep_object`, `fails` whether it cannot be sent.
  unfoldable pub register :
      Floats F → F → Bool → Report → Server F → ℕ → Process F → Option (Server F)
  unfolding obj_new stand_for send_mcp focus_new
  register fl one_f fails packet s pid p =
      let (oid, t) = obj_new fl one_f (mcp_objects s.procs) in
      if oid == minus_one
      then some (record s { procs = with_mcp s.procs (λ _. t) })
      else let t' = update t oid (λ o. stand_for o pid) in
        let ps = set (with_mcp s.procs (λ _. t')) pid (record p { mcp_oid = oid }) in
        elim (send_mcp fails (record s { procs = ps }) packet) [
          | none ↦ none
          | some s1 ↦ some (focus_new s1 oid)
        ]
