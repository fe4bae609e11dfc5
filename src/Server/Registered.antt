-- ===== src/Server/Registered.antt =====
-- The end of `process_protinit` of server/process.c on a well-formed list of processes.
use s3d.Base.{
  ℕ, zero, suc, ◌<◌, ◌≡◌, ◌≢◌, ap, ◌∙◌, arith, Bool, true, Bool-cases, inl, inr, some, List, length,
  if◌then◌else◌, ◌==◌, set, get_elem?, length-set,
}
use s3d.Object.{Floats, minus_one}
use s3d.Object.Links.View.{node}
use s3d.Object.Links.Forest.{IsForest}
use s3d.Object.Links.Life.{obj_new}
use s3d.Events.Sent.{Report}
use s3d.Server.{Process, Server, mcp_objects, with_mcp, register, focus_new, mcp_focus}
use s3d.Server.Tags.{tag_at}
use s3d.Server.Lists.{
  get_elem?-set, get_elem?-some_lt, get_elem?-within, with_mcp_head, with_mcp_tail, mcp_objects-get,
  length-with_mcp, mcp_objects-with_mcp, mcp_objects-set,
}
use s3d.Server.Invariant.{IsServer}
use s3d.Server.Kept.{send_mcp-Kept, mcp-IsForest}
use s3d.Server.Joined.{joined, joined_tag, joined_fresh, joined-IsForest}

module _ {F : Type 0} where
  module _ (fl : Floats F) (one_f : F) (ps : List (Process F)) (pid : ℕ) (p : Process F)
      (h : IsServer ps) (pos : 0 < pid) (e : get_elem? ps pid ≡ some p)
      (fits : (obj_new fl one_f (mcp_objects ps)).0 ≢ minus_one) where
    abbrev pub with_object : List (Process F)
    with_object =
        set (with_mcp ps (λ u. joined fl one_f (mcp_objects ps) pid)) pid
          (record p { mcp_oid = (obj_new fl one_f (mcp_objects ps)).0 })

    with_object_len : length with_object ≡ length ps
    with_object_len =
        length-set (with_mcp ps (λ u. joined fl one_f (mcp_objects ps) pid)) pid
          (record p { mcp_oid = (obj_new fl one_f (mcp_objects ps)).0 })
        ∙ length-with_mcp ps (λ u. joined fl one_f (mcp_objects ps) pid)

    with_object_at :
        (i : ℕ)
        → get_elem? with_object (suc i) ≡ (
            if pid == suc i
            then some (record p { mcp_oid = (obj_new fl one_f (mcp_objects ps)).0 })
            else get_elem? ps (suc i))
    with_object_at i = ground (
      arith,
      get_elem?-set (with_mcp ps (λ u. joined fl one_f (mcp_objects ps) pid)) pid (suc i)
          (record p { mcp_oid = (obj_new fl one_f (mcp_objects ps)).0 })
          (omega (
            arith,
            length-with_mcp ps (λ u. joined fl one_f (mcp_objects ps) pid),
            get_elem?-some_lt ps pid e,
          )),
      with_mcp_tail ps (λ u. joined fl one_f (mcp_objects ps) pid) i,
    )

    with_object_here :
        get_elem? with_object pid
        ≡ some (record p { mcp_oid = (obj_new fl one_f (mcp_objects ps)).0 })
    with_object_here = ground (
      arith,
      get_elem?-set (with_mcp ps (λ u. joined fl one_f (mcp_objects ps) pid)) pid pid
          (record p { mcp_oid = (obj_new fl one_f (mcp_objects ps)).0 })
          (omega (
            arith,
            length-with_mcp ps (λ u. joined fl one_f (mcp_objects ps) pid),
            get_elem?-some_lt ps pid e,
          )),
    )

    with_object_mcp : mcp_objects with_object ≡ joined fl one_f (mcp_objects ps) pid
    with_object_mcp =
        mcp_objects-set (with_mcp ps (λ u. joined fl one_f (mcp_objects ps) pid)) pid
          (record p { mcp_oid = (obj_new fl one_f (mcp_objects ps)).0 }) pos
        ∙ mcp_objects-with_mcp ps (λ u. joined fl one_f (mcp_objects ps) pid) h.some_mcp

    with_object_head :
        (q : Process F)
        → get_elem? with_object 0 ≡ some q
        → (x : Process F) × (get_elem? ps 0 ≡ some x) × (q.id ≡ x.id)
    with_object_head q f =
        let (x, g) = get_elem?-within ps 0 h.some_mcp in
        (
          x,
          g,
          ground (
            arith,
            f,
            g,
            with_mcp_head ps (λ u. joined fl one_f (mcp_objects ps) pid),
            get_elem?-set (with_mcp ps (λ u. joined fl one_f (mcp_objects ps) pid)) pid 0
                (record p { mcp_oid = (obj_new fl one_f (mcp_objects ps)).0 })
                (omega (
                  arith,
                  length-with_mcp ps (λ u. joined fl one_f (mcp_objects ps) pid),
                  get_elem?-some_lt ps pid e,
                )),
          ),
        )

    with_object-ids : (i : ℕ) (q : Process F) → get_elem? with_object i ≡ some q → q.id ≡ i
    with_object-ids zero q f = let (x, g, k) = with_object_head q f in k ∙ h.ids 0 x g
    with_object-ids (suc i) q f =
        ground (arith, with_object_at i, h.ids (suc i) q, h.ids pid p e, f)

    with_object-forests :
        (i : ℕ) (q : Process F) → get_elem? with_object i ≡ some q → IsForest (node q.object)
    with_object-forests zero q f =
        rw (← mcp_objects-get with_object f, with_object_mcp)
          (joined-IsForest fl one_f (mcp_objects ps) pid fits (mcp-IsForest ps 0 h))
    with_object-forests (suc i) q f = elim (Bool-cases (pid == suc i)) [
      | inl g ↦
          let same : record p { mcp_oid = (obj_new fl one_f (mcp_objects ps)).0 } ≡ q =
            ground (arith, g, with_object_at i, f) in
          rw (← same) (h.forests pid p e)
      | inr g ↦ h.forests (suc i) q (ground (arith, g, with_object_at i, f))
    ]

    with_object-registered :
        (i : ℕ) (q : Process F)
        → get_elem? with_object i ≡ some q
        → 0 < i
        → q.mcp_oid ≢ minus_one
        → tag_at (mcp_objects with_object) q.mcp_oid ≡ some (i, true)
    with_object-registered zero q f z m = absurd (omega arith)
    with_object-registered (suc i) q f z m = ground (
      arith,
      f,
      with_object_at i,
      with_object_mcp,
      joined_tag fl one_f (mcp_objects ps) pid q.mcp_oid,
      joined_fresh fl one_f (mcp_objects ps) pid,
      h.registered (suc i) q,
      ap (tag_at (mcp_objects ps)),
    )

    pub with_object-IsServer : IsServer with_object
    with_object-IsServer = record {
      some_mcp = omega (arith, with_object_len, h.some_mcp);
      ids = with_object-ids;
      forests = with_object-forests;
      registered = λ i q f z ne m. with_object-registered i q f z m;
    }

  focus_new-procs : (s : Server F) (oid : ℕ) → (focus_new s oid).procs ≡ s.procs
  unfolding focus_new mcp_focus
  focus_new-procs s oid = ground arith

  -- A program gets an object of the mcp when it logs in: the call ends, whether the report to
  -- the mcp fails or not, the list stays well formed, the program has the object that obj_new made, and
  -- this is virtual and carries the number of the program. (The table of the mcp has fewer than 2 ^ 32 - 1
  -- entries.)
  pub register-IsServer :
      (fl : Floats F) (one_f : F) (fails : Bool) (packet : Report) (s : Server F) (pid : ℕ)
      (p : Process F)
      → IsServer s.procs
      → 0 < pid
      → get_elem? s.procs pid ≡ some p
      → (obj_new fl one_f (mcp_objects s.procs)).0 ≢ minus_one
      → (s' : Server F) × (q : Process F) × (register fl one_f fails packet s pid p ≡ some s')
        × IsServer s'.procs
        × (get_elem? s'.procs pid ≡ some q)
        × (q.mcp_oid ≡ (obj_new fl one_f (mcp_objects s.procs)).0)
        × (tag_at (mcp_objects s'.procs) q.mcp_oid ≡ some (pid, true))
  unfolding register
  register-IsServer fl one_f fails packet s pid p h pos e fits =
      let oid = (obj_new fl one_f (mcp_objects s.procs)).0 in
      let ps = with_object fl one_f s.procs pid p h pos e fits in
      let (s1, r, k, same) =
        send_mcp-Kept fails (record s { procs = ps }) packet 0
          (with_object-IsServer fl one_f s.procs pid p h pos e fits) in
      let lt = get_elem?-some_lt s.procs pid e in
      let (q, f) =
        get_elem?-within s1.procs pid
          (omega (arith, same.0, with_object_len fl one_f s.procs pid p h pos e fits)) in
      let (x, g, a, b, c) = same.1 pid q f in
      let mine : x.mcp_oid ≡ oid =
        ground (arith, g, with_object_here fl one_f s.procs pid p h pos e fits) in
      (
        focus_new s1 oid,
        q,
        ground (arith, r, fits),
        rw (focus_new-procs s1 oid) k,
        ap (λ l. get_elem? l pid) (focus_new-procs s1 oid) ∙ f,
        b ∙ mine,
        ap (λ l. tag_at (mcp_objects l) q.mcp_oid) (focus_new-procs s1 oid)
            ∙ k.registered pid q f pos (ground arith) (ground (arith, b, mine, fits)),
      )
