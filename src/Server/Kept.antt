-- ===== src/Server/Kept.antt =====
-- What `n_remove` and the loss of the mcp leave of the list of processes of server/process.c.
use s3d.Base.{
  ℕ, zero, suc, ◌<◌, ◌≡◌, ◌≢◌, refl, ap, ◌∙◌, arith, Bool, true, false, Bool-cases, Option-cases,
  inl, inr, Option, some, some_of_eq, List, [], ◌∷◌, ◌++◌, length, if◌then◌else◌, ◌==◌, set,
  get_elem?, length-set,
}
use s3d.Object.{Obj, Table, minus_one}
use s3d.Object.Links.{has_flag}
use s3d.Object.Links.View.{node}
use s3d.Object.Links.Forest.{IsForest}
use s3d.Object.Clones.{of_virtual}
use s3d.Events.Sent.{Report, deleted_packet}
use s3d.Server.{
  Process, Connection, con_null, con_tcp, con_shm, Server, mcp_objects, with_mcp, n_remove,
  free_where, of_mcp, mcp_del, send_mcp, mcp_del_object,
}
use s3d.Server.Tags.{tag_at}
use s3d.Server.Frees.{free_where_lem}
use s3d.Server.Lists.{
  get_elem?-set, get_elem?-some_lt, get_elem?-within, mcp_objects-with_mcp, mcp_objects-get,
}
use s3d.Server.Invariant.{IsServerBut}

module _ {F : Type 0} where
  -- The programs of the one list are in the other as well, but for the connection.
  abbrev pub SamePrograms : List (Process F) → List (Process F) → Type 0
  SamePrograms ps qs =
      (length qs ≡ length ps)
      × ((i : ℕ) (q : Process F)
          → get_elem? qs i ≡ some q
          → (p : Process F) × (get_elem? ps i ≡ some p)
            × (q.id ≡ p.id)
            × (q.mcp_oid ≡ p.mcp_oid)
            × ((0 < i) → q.object ≡ p.object))

  -- other objects of the mcp
  pub same-IsServerBut :
      (ps qs : List (Process F)) (gone gone' : ℕ)
      → IsServerBut ps gone
      → SamePrograms ps qs
      → IsForest (node (mcp_objects qs))
      → ((i : ℕ) (p : Process F)
          → get_elem? ps i ≡ some p
          → 0 < i
          → i ≢ gone'
          → p.mcp_oid ≢ minus_one
          → tag_at (mcp_objects qs) p.mcp_oid ≡ some (i, true))
      → IsServerBut qs gone'
  same-IsServerBut ps qs gone gone' h s f t = record {
    some_mcp = omega (arith, s.0, h.some_mcp);
    ids = λ i q e. let (p, g, a, b, c) = s.1 i q e in ground (arith, a, h.ids i p g);
    forests = λ i q e.
        let (p, g, a, b, c) = s.1 i q e in
        elim (Bool-cases (i == 0)) [
          | inl z ↦
              let first : get_elem? qs 0 ≡ some q =
                ap (get_elem? qs) (let z' : 0 ≡ i = ground arith in z') ∙ e in
              rw (← mcp_objects-get qs first) f
          | inr z ↦ rw (c (ground arith)) (h.forests i p g)
        ];
    registered =
        λ i q e pos ne m. let (p, g, a, b, c) = s.1 i q e in rw b (t i p g pos ne (rw (← b) m));
  }

  pub same-SamePrograms : (ps : List (Process F)) → SamePrograms ps ps
  same-SamePrograms ps = (refl, λ i q e. (q, e, refl, refl, λ h. refl))

  pub trans-SamePrograms :
      (ps qs rs : List (Process F)) → SamePrograms ps qs → SamePrograms qs rs → SamePrograms ps rs
  trans-SamePrograms ps qs rs s t = (
    t.0 ∙ s.0,
    λ i r e.
        let (q, f, a, b, c) = t.1 i r e in
        let (p, g, a', b', c') = s.1 i q f in (p, g, a ∙ a', b ∙ b', λ h. c h ∙ c' h),
  )

  closed-SamePrograms :
      (ps : List (Process F)) (pid : ℕ) (p : Process F)
      → get_elem? ps pid ≡ some p
      → SamePrograms ps (set ps pid (record p { con_type = con_null }))
  closed-SamePrograms ps pid p e = (
    length-set ps pid (record p { con_type = con_null }),
    λ i q f.
        let at =
          get_elem?-set ps pid i (record p { con_type = con_null }) (get_elem?-some_lt ps pid e) in
        elim (Bool-cases (pid == i)) [
          | inl z ↦
              let same : record p { con_type = con_null } ≡ q = ground (arith, at, z, f) in
              (
                p,
                ap (get_elem? ps) (let z' : i ≡ pid = ground arith in z') ∙ e,
                rw (← same) refl,
                rw (← same) refl,
                λ h. rw (← same) refl,
              )
          | inr z ↦ (q, ground (arith, at, z, f), refl, refl, λ h. refl)
        ],
  )

  pub n_remove-SamePrograms : (ps : List (Process F)) (pid : ℕ) → SamePrograms ps (n_remove ps pid)
  unfolding n_remove
  n_remove-SamePrograms ps pid = elim (Option-cases (get_elem? ps pid)) [
    | inl e ↦ let same : n_remove ps pid ≡ ps = ground (arith, e) in rw same (same-SamePrograms ps)
    | inr (p, e) ↦
        let same : n_remove ps pid ≡ set ps pid (record p { con_type = con_null }) =
          ground (arith, e) in
        rw same (closed-SamePrograms ps pid p e)
  ]

  pub n_remove-mcp :
      (ps : List (Process F)) (pid : ℕ) → mcp_objects (n_remove ps pid) ≡ mcp_objects ps
  unfolding n_remove
  n_remove-mcp [] pid = refl
  n_remove-mcp (p ∷ ps) zero = refl
  n_remove-mcp (p ∷ ps) (suc pid) = elim (Option-cases (get_elem? ps pid)) [
    | inl e ↦
        let same : n_remove (p ∷ ps) (suc pid) ≡ p ∷ ps = ground (arith, e) in ap mcp_objects same
    | inr (q, e) ↦
        let same : n_remove (p ∷ ps) (suc pid) ≡ p ∷ set ps pid (record q { con_type = con_null }) =
          ground (arith, e) in
        ap mcp_objects same
  ]

  put_mcp_entry :
      (p : Process F) (ps : List (Process F)) (t : Table F) (i : ℕ) (q : Process F)
      → get_elem? (record p { object = t } ∷ ps) i ≡ some q
      → (x : Process F) × (get_elem? (p ∷ ps) i ≡ some x)
        × (q.id ≡ x.id)
        × (q.mcp_oid ≡ x.mcp_oid)
        × ((0 < i) → q.object ≡ x.object)
  put_mcp_entry p ps t zero q e =
      (p, refl, cc (some_of_eq e), cc (some_of_eq e), λ h. absurd (omega arith))
  put_mcp_entry p ps t (suc i) q e = (q, e, refl, refl, λ h. refl)

  pub put_mcp-SamePrograms :
      (ps : List (Process F)) (t : Table F) → SamePrograms ps (with_mcp ps (λ u. t))
  put_mcp-SamePrograms [] t = same-SamePrograms []
  put_mcp-SamePrograms (p ∷ ps) t = (refl, λ i q e. put_mcp_entry p ps t i q e)

  pub mcp-IsForest :
      (ps : List (Process F)) (gone : ℕ) → IsServerBut ps gone → IsForest (node (mcp_objects ps))
  mcp-IsForest ps gone h =
      let (p, e) = get_elem?-within ps 0 h.some_mcp in rw (mcp_objects-get ps e) (h.forests 0 p e)

  of_mcp-virtual : (o : Obj F) → of_mcp o ≡ false → has_flag of_virtual o.oflags ≡ false
  unfolding of_mcp
  of_mcp-virtual o e = ground arith

  -- what a call that only changes connections and the objects of the mcp leaves
  abbrev pub Kept : ℕ → Server F → Option (Server F) → Type 0
  Kept gone s r =
      (s' : Server F) × (r ≡ some s') × IsServerBut s'.procs gone × SamePrograms s.procs s'.procs

  mcp_del-some :
      (s : Server F) (t : Table F)
      → free_where of_mcp (length (mcp_objects s.procs)) (mcp_objects s.procs) 0 ≡ some t
      → mcp_del s ≡ some (record s { procs = with_mcp (n_remove s.procs 0) (λ u. t) })
  unfolding mcp_del
  mcp_del-some s t e = ground (arith, e)

  -- The mcp loses what is not its own.
  pub mcp_del-Kept : (s : Server F) (gone : ℕ) → IsServerBut s.procs gone → Kept gone s (mcp_del s)
  mcp_del-Kept s gone h =
      let (t, e, f, tags) =
        free_where_lem of_mcp (length (mcp_objects s.procs)) (mcp_objects s.procs) 0
          (mcp-IsForest s.procs gone h) in
      let ps = n_remove s.procs 0 in
      let same =
        trans-SamePrograms s.procs ps (with_mcp ps (λ u. t)) (n_remove-SamePrograms s.procs 0)
          (put_mcp-SamePrograms ps t) in
      let here : mcp_objects (with_mcp ps (λ u. t)) ≡ t =
        mcp_objects-with_mcp ps (λ u. t)
          (omega (arith, (n_remove-SamePrograms s.procs 0).0, h.some_mcp)) in
      (
        record s { procs = with_mcp ps (λ u. t) },
        mcp_del-some s t e,
        same-IsServerBut s.procs (with_mcp ps (λ u. t)) gone gone h same (rw here f)
            (λ i p q pos ne m.
              rw here (tags of_mcp-virtual p.mcp_oid i (h.registered i p q pos ne m))),
        same,
      )

  -- a message, by the connection of the mcp
  send_mcp-open :
      (fails : Bool) (s : Server F) (packet : Report) (gone : ℕ)
      → IsServerBut s.procs gone
      → (p : Process F) → get_elem? s.procs 0 ≡ some p
      → (con : Connection) → p.con_type ≡ con
      → Kept gone s (send_mcp fails s packet)
  unfolding send_mcp
  send_mcp-open fails s packet gone h p e con_null c =
      (s, ground (arith, e, c), h, same-SamePrograms s.procs)
  send_mcp-open true s packet gone h p e con_tcp c =
      let (s', r, k, same) = mcp_del-Kept s gone h in (s', ground (arith, e, c, r), k, same)
  send_mcp-open true s packet gone h p e con_shm c =
      let (s', r, k, same) = mcp_del-Kept s gone h in (s', ground (arith, e, c, r), k, same)
  send_mcp-open false s packet gone h p e con_tcp c = (
    record s { sent = s.sent ++ (packet ∷ []) },
    ground (arith, e, c),
    h,
    same-SamePrograms s.procs,
  )
  send_mcp-open false s packet gone h p e con_shm c = (
    record s { sent = s.sent ++ (packet ∷ []) },
    ground (arith, e, c),
    h,
    same-SamePrograms s.procs,
  )

  pub send_mcp-Kept :
      (fails : Bool) (s : Server F) (packet : Report) (gone : ℕ)
      → IsServerBut s.procs gone
      → Kept gone s (send_mcp fails s packet)
  send_mcp-Kept fails s packet gone h =
      let (p, e) = get_elem?-within s.procs 0 h.some_mcp in
      send_mcp-open fails s packet gone h p e p.con_type refl

  pub mcp_del_object-Kept :
      (fails : Bool) (s : Server F) (mcp_oid gone : ℕ)
      → IsServerBut s.procs gone
      → Kept gone s (mcp_del_object fails s mcp_oid)
  unfolding mcp_del_object
  mcp_del_object-Kept fails s mcp_oid gone h =
      send_mcp-Kept fails
        (record s { focus_oid = if mcp_oid == s.focus_oid then minus_one else s.focus_oid })
        (deleted_packet mcp_oid) gone h
