-- ===== src/Server/Removed.antt =====
-- `process_list_rm` of server/process.c: the last process takes the place of one that goes.
use s3d.Base.{
  ℕ, zero, suc, ◌-◌, ◌<◌, ◌≡◌, ◌≢◌, refl, ap, sym, ◌∙◌, arith, true, Bool-cases, inl, inr, some,
  List, length, if◌then◌else◌, ◌==◌, set, take, get_elem?, length-set, length-take,
}
use mathlib.Core.Path.{subst}
use s3d.Object.{Table, minus_one}
use s3d.Object.Links.{update}
use s3d.Object.Links.View.{node, node-update}
use s3d.Object.Links.Forest.{IsForest}
use s3d.Server.{Process, mcp_objects, with_mcp, move_last, process_list_rm}
use s3d.Server.Tags.{tag_at, tag_at-renumber}
use s3d.Server.Lists.{
  get_elem?-set, get_elem?-take, get_elem?-within, with_mcp_head, with_mcp_tail, length-with_mcp,
  mcp_objects-with_mcp, mcp_objects-set, mcp_objects-take,
}
use s3d.Server.Invariant.{IsServerBut, IsServer}

module _ {F : Type 0} where
  -- the list without its last entry
  take-IsServer :
      (ps : List (Process F)) (n : ℕ)
      → 0 < n
      → length ps ≡ suc n
      → IsServerBut ps n
      → IsServer (take n ps)
  take-IsServer ps n pos e h = record {
    some_mcp = ground (arith, length-take n ps);
    ids = λ i p. ground (arith, get_elem?-take n ps i, h.ids i p);
    forests = λ i p q. h.forests i p (ground (arith, get_elem?-take n ps i, q));
    registered = λ i p q.
        ground (arith, get_elem?-take n ps i, mcp_objects-take n ps pos, h.registered i p, q);
  }

  renumber-IsForest :
      (t : Table F) (oid pid : ℕ)
      → IsForest (node t)
      → IsForest (node (update t oid (λ o. record o { virtual_pid = pid })))
  renumber-IsForest t oid pid h =
      let same = λ (j : ℕ).
        let e : node (update t oid (λ o. record o { virtual_pid = pid })) j ≡ node t j =
          ground (
            arith,
            node-update t oid j (λ o. record o { virtual_pid = pid }) (λ n. n) (λ o. refl),
          ) in
        sym e in
      let e : node t ≡ node (update t oid (λ o. record o { virtual_pid = pid })) =
        λ i j. same j i in
      subst IsForest e h

  module _ (ps : List (Process F)) (pid n : ℕ) (last : Process F) (pos : 0 < pid) (lt : pid < n)
      (e : length ps ≡ suc n) (at_end : get_elem? ps n ≡ some last) (h : IsServerBut ps pid) where
    abbrev moved : Process F
    moved = record last { id = pid }

    moved_at :
        (i : ℕ) → get_elem? (set ps pid moved) i ≡ (if pid == i then some moved else get_elem? ps i)
    moved_at i = get_elem?-set ps pid i moved (omega arith)

    moved-forests :
        (i : ℕ) (p : Process F)
        → (if pid == i then some moved else get_elem? ps i) ≡ some p
        → IsForest (node p.object)
    moved-forests i p q = elim (Bool-cases (pid == i)) [
      | inl f ↦ let same : moved ≡ p = ground (arith, f, q) in rw (← same) (h.forests n last at_end)
      | inr f ↦ h.forests i p (ground (arith, f, q))
    ]

    -- the last process has no object of the mcp
    set-IsServerBut : last.mcp_oid ≡ minus_one → IsServerBut (set ps pid moved) n
    set-IsServerBut none_yet = record {
      some_mcp = omega (arith, length-set ps pid moved);
      ids = λ i p q. ground (arith, moved_at i, h.ids i p, q);
      forests = λ i p q. moved-forests i p (sym (moved_at i) ∙ q);
      registered = λ i p q.
          ground
            (arith, moved_at i, mcp_objects-set ps pid moved pos, h.registered i p, q, none_yet);
    }

    abbrev renumbered : List (Process F)
    renumbered =
        with_mcp (set ps pid moved)
          (λ t. update t last.mcp_oid (λ o. record o { virtual_pid = pid }))

    renumbered_head :
        (p : Process F)
        → get_elem? renumbered 0 ≡ some p
        → (q : Process F) × (get_elem? ps 0 ≡ some q)
          × (p ≡ record q {
            object = update q.object last.mcp_oid (λ o. record o { virtual_pid = pid });
          })
    renumbered_head p r =
        let (q, f) = get_elem?-within ps 0 (omega arith) in
        (
          q,
          f,
          ground (
            arith,
            with_mcp_head (set ps pid moved)
                (λ t. update t last.mcp_oid (λ o. record o { virtual_pid = pid })),
            moved_at 0,
            f,
            r,
          ),
        )

    renumbered_tail :
        (i : ℕ)
        → get_elem? renumbered (suc i) ≡ (if pid == suc i then some moved else get_elem? ps (suc i))
    renumbered_tail i =
        with_mcp_tail (set ps pid moved)
          (λ t. update t last.mcp_oid (λ o. record o { virtual_pid = pid })) i
        ∙ moved_at (suc i)

    renumbered_mcp :
        mcp_objects renumbered
        ≡ update (mcp_objects ps) last.mcp_oid (λ o. record o { virtual_pid = pid })
    renumbered_mcp =
        mcp_objects-with_mcp (set ps pid moved)
          (λ t. update t last.mcp_oid (λ o. record o { virtual_pid = pid }))
          (omega (arith, length-set ps pid moved))
        ∙ ap (λ t. update t last.mcp_oid (λ o. record o { virtual_pid = pid }))
            (mcp_objects-set ps pid moved pos)

    renumbered-ids : (i : ℕ) (p : Process F) → get_elem? renumbered i ≡ some p → p.id ≡ i
    renumbered-ids zero p r = let (q, f, g) = renumbered_head p r in ground (arith, g, h.ids 0 q f)
    renumbered-ids (suc i) p r = ground (arith, renumbered_tail i, h.ids (suc i) p, r)

    renumbered-forests :
        (i : ℕ) (p : Process F) → get_elem? renumbered i ≡ some p → IsForest (node p.object)
    renumbered-forests zero p r =
        let (q, f, g) = renumbered_head p r in
        rw g (renumber-IsForest q.object last.mcp_oid pid (h.forests 0 q f))
    renumbered-forests (suc i) p r = moved-forests (suc i) p (sym (renumbered_tail i) ∙ r)

    renumbered-registered :
        (i : ℕ) (p : Process F)
        → get_elem? renumbered i ≡ some p
        → 0 < i
        → i ≢ n
        → last.mcp_oid ≢ minus_one
        → p.mcp_oid ≢ minus_one
        → tag_at (mcp_objects renumbered) p.mcp_oid ≡ some (i, true)
    renumbered-registered zero p r a b c d = absurd (omega arith)
    renumbered-registered (suc i) p r a b c d =
        let tag = h.registered n last at_end (omega arith) (omega arith) c in
        ground (
          arith,
          renumbered_tail i,
          renumbered_mcp,
          tag_at-renumber (mcp_objects ps) last.mcp_oid p.mcp_oid pid tag,
          h.registered (suc i) p,
          tag,
          r,
        )

    move_last-IsServerBut : IsServerBut (move_last ps pid last) n
    unfolding move_last
    move_last-IsServerBut = elim (Bool-cases (last.mcp_oid == minus_one)) [
      | inl f ↦ rw f (set-IsServerBut (ground arith))
      | inr f ↦ rw f (record {
        some_mcp = omega (
          arith,
          length-with_mcp (set ps pid moved)
              (λ t. update t last.mcp_oid (λ o. record o { virtual_pid = pid })),
          length-set ps pid moved,
        );
        ids = renumbered-ids;
        forests = renumbered-forests;
        registered = λ i p q a b. renumbered-registered i p q a b (ground arith);
      })
    ]

    length-move_last : length (move_last ps pid last) ≡ suc n
    unfolding move_last
    length-move_last = ground (
      arith,
      length-with_mcp (set ps pid moved)
          (λ t. update t last.mcp_oid (λ o. record o { virtual_pid = pid })),
      length-set ps pid moved,
    )

  -- Without the process `pid` and its object of the mcp the list is well formed after its removal.
  pub process_list_rm-IsServer :
      (ps : List (Process F)) (pid : ℕ)
      → 0 < pid
      → pid < length ps
      → IsServerBut ps pid
      → IsServer (process_list_rm ps pid)
  unfolding process_list_rm
  process_list_rm-IsServer ps pid pos lt h =
      let n = length ps - 1 in
      let e : length ps ≡ suc n = omega arith in
      elim (Bool-cases (suc pid == length ps)) [
        | inl f ↦
            let same : n ≡ pid = ground arith in
            rw f (take-IsServer ps n (omega arith) e (rw same h))
        | inr f ↦
            let (last, g) = get_elem?-within ps n (omega arith) in
            rw (f, g)
              (take-IsServer (move_last ps pid last) n (omega arith)
                (length-move_last ps pid n last pos (ground arith) e g h)
                (move_last-IsServerBut ps pid n last pos (ground arith) e g h))
      ]
