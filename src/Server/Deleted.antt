-- ===== src/Server/Deleted.antt =====
-- `process_del` of server/process.c on a well-formed list of processes.
use s3d.Base.{
  ℕ, zero, suc, ◌≤◌, ◌<◌, ◌≡◌, ◌≢◌, ap, ◌∙◌, arith, Bool, false, ◌&&◌, Bool-cases, Option-cases,
  inl, inr, some, List, length, if◌then◌else◌, ◌==◌, ltb, get_elem?,
}
use s3d.Object.{Status, done, failed, minus_one}
use s3d.Server.{
  Process, Server, mcp_objects, with_mcp, n_remove, unregister, app_del, process_del,
  process_list_rm, drop_clones,
}
use s3d.Server.Tags.{tag_at}
use s3d.Server.Frees.{free_object_lem, free_where_lem, drop_clones_lem, tag_there}
use s3d.Server.Lists.{get_elem?-some_lt, get_elem?-none_le, mcp_objects-with_mcp}
use s3d.Server.Invariant.{IsServer}
use s3d.Server.Kept.{
  Kept, same-SamePrograms, same-IsServerBut, trans-SamePrograms, n_remove-SamePrograms,
  n_remove-mcp, put_mcp-SamePrograms, mcp_del-Kept, mcp_del_object-Kept, mcp-IsForest,
}
use s3d.Server.Moves.{length-process_list_rm}
use s3d.Server.Removed.{process_list_rm-IsServer}

module _ {F : Type 0} where
  -- Two programs have no object of the mcp in common.
  other_oid :
      (ps : List (Process F)) (h : IsServer ps) (pid i : ℕ) (p q : Process F)
      → get_elem? ps pid ≡ some p
      → get_elem? ps i ≡ some q
      → 0 < pid
      → 0 < i
      → i ≢ pid
      → q.mcp_oid ≢ minus_one
      → (p.mcp_oid == q.mcp_oid) ≡ false
  other_oid ps h pid i p q e f pos pos' ne m = ground (
    arith,
    h.registered pid p e pos (ground arith),
    h.registered i q f pos' (ground arith),
    ap (tag_at (mcp_objects ps)),
  )

  -- The object of the mcp that stands for a program is freed.
  unregister-Kept :
      (zero_f : F) (fails : Bool) (s : Server F) (pid : ℕ) (p : Process F)
      → IsServer s.procs
      → 0 < pid
      → get_elem? s.procs pid ≡ some p
      → Kept pid s (unregister zero_f fails s p)
  unfolding unregister
  unregister-Kept zero_f fails s pid p h pos e = elim (Bool-cases (p.mcp_oid == minus_one)) [
    | inl m ↦ (
      s,
      ground (arith, m),
      same-IsServerBut s.procs s.procs 0 pid h (same-SamePrograms s.procs)
          (mcp-IsForest s.procs 0 h)
          (λ i q f pos' ne m'. h.registered i q f pos' (ground arith) m'),
      same-SamePrograms s.procs,
    )
    | inr m ↦
        let reg = h.registered pid p e pos (ground arith) (ground arith) in
        let (dropped, tags) =
          drop_clones_lem zero_f (mcp_objects s.procs) p.mcp_oid (mcp-IsForest s.procs 0 h) in
        let (t, f, forest, freed) =
          free_object_lem (drop_clones zero_f (mcp_objects s.procs) p.mcp_oid) p.mcp_oid dropped (
            tag_there (drop_clones zero_f (mcp_objects s.procs) p.mcp_oid) p.mcp_oid
              (tags p.mcp_oid ∙ reg)) in
        let same = put_mcp-SamePrograms s.procs t in
        let here : mcp_objects (with_mcp s.procs (λ u. t)) ≡ t =
          mcp_objects-with_mcp s.procs (λ u. t) h.some_mcp in
        let (s', r, k, kept) =
          mcp_del_object-Kept fails (record s { procs = with_mcp s.procs (λ u. t) }) p.mcp_oid pid
            (same-IsServerBut s.procs (with_mcp s.procs (λ u. t)) 0 pid h same (rw here forest)
              (λ i q g pos' ne m'. rw here (
                ground (
                  arith,
                  freed q.mcp_oid,
                  tags q.mcp_oid,
                  h.registered i q g pos',
                  other_oid s.procs h pid i p q e g pos pos' ne m',
                )))) in
        (
          s',
          ground (arith, m, f, r),
          k,
          trans-SamePrograms s.procs (with_mcp s.procs (λ u. t)) s'.procs same kept,
        )
  ]

  app_del-IsServer :
      (zero_f : F) (fails : Bool) (s : Server F) (pid : ℕ) (p : Process F)
      → IsServer s.procs
      → 0 < pid
      → get_elem? s.procs pid ≡ some p
      → (s' : Server F) × (app_del zero_f fails s pid p ≡ some s')
        × IsServer s'.procs
        × (suc (length s'.procs) ≡ length s.procs)
  unfolding app_del
  app_del-IsServer zero_f fails s pid p h pos e =
      let (s1, r, k, kept) = unregister-Kept zero_f fails s pid p h pos e in
      let (t, f, _, _) =
        free_where_lem (λ o. false) (length p.object) p.object 0 (h.forests pid p e) in
      let lt : pid < length s1.procs = omega (arith, kept.0, get_elem?-some_lt s.procs pid e) in
      (
        record s1 { procs = process_list_rm s1.procs pid },
        ground (arith, r, f),
        process_list_rm-IsServer s1.procs pid pos lt k,
        length-process_list_rm s1.procs pid k.some_mcp ∙ kept.0,
      )

  -- On a well-formed list of processes `process_del` ends, whatever its argument and whether messages to
  -- the mcp fail or not, and leaves the list well formed. It is one process shorter, and the result 0, if
  -- the argument is the number of a program; the mcp stays in the list.
  pub process_del-IsServer :
      (zero_f : F) (fails : Bool) (s : Server F) (pid : ℕ)
      → IsServer s.procs
      → (status : Status) × (s' : Server F) × (process_del zero_f fails s pid ≡ some (status, s'))
        × IsServer s'.procs
        × (status ≡ (if ltb pid (length s.procs) then done else failed))
        × (length s.procs ≡ (
            if ltb 0 pid && ltb pid (length s.procs)
            then suc (length s'.procs)
            else length s'.procs))
  unfolding process_del
  process_del-IsServer zero_f fails s zero h =
      let (s', r, k, same) = mcp_del-Kept s 0 h in
      (done, s', ground (arith, r), k, ground (arith, h.some_mcp), ground (arith, same.0))
  process_del-IsServer zero_f fails s (suc pid) h =
      let ps = n_remove s.procs (suc pid) in
      let same = n_remove-SamePrograms s.procs (suc pid) in
      let closed : IsServer ps =
        same-IsServerBut s.procs ps 0 0 h same
          (rw (n_remove-mcp s.procs (suc pid)) (mcp-IsForest s.procs 0 h))
          (λ i q f pos ne m. rw (n_remove-mcp s.procs (suc pid)) (h.registered i q f pos ne m)) in
      elim (Option-cases (get_elem? ps (suc pid))) [
        | inl e ↦
            let beyond : length s.procs ≤ suc pid =
              omega (arith, same.0, get_elem?-none_le ps (suc pid) e) in
            (failed, s, ground (arith, e), h, ground arith, ground arith)
        | inr (p, e) ↦
            let (s', r, k, shorter) =
              app_del-IsServer zero_f fails (record s { procs = ps }) (suc pid) p closed
                (omega arith) e in
            let within : suc pid < length s.procs =
              omega (arith, same.0, get_elem?-some_lt ps (suc pid) e) in
            (done, s', ground (arith, e, r), k, ground arith, ground (arith, shorter, same.0))
      ]
