-- ===== src/Server/Moves.antt =====
-- Where `process_list_rm` of server/process.c leaves the processes.
use s3d.Base.{
  ℕ, suc, ◌-◌, ◌<◌, ◌≡◌, arith, none, some, List, length, if◌then◌else◌, ◌==◌, set, get_elem?,
  length-set, length-take,
}
use s3d.Object.Links.{update}
use s3d.Server.{Process, move_last, process_list_rm}
use s3d.Server.Lists.{
  get_elem?-set, get_elem?-take, get_elem?-within, get_elem?-beyond, with_mcp_tail, length-with_mcp,
}

module _ {F : Type 0} where
  length-moved :
      (ps : List (Process F)) (pid : ℕ) (last : Process F)
      → length (move_last ps pid last) ≡ length ps
  unfolding move_last
  length-moved ps pid last = ground (
    arith,
    length-with_mcp (set ps pid (record last { id = pid }))
        (λ t. update t last.mcp_oid (λ o. record o { virtual_pid = pid })),
    length-set ps pid (record last { id = pid }),
  )

  pub length-process_list_rm :
      (ps : List (Process F)) (pid : ℕ)
      → 0 < length ps
      → suc (length (process_list_rm ps pid)) ≡ length ps
  unfolding process_list_rm
  length-process_list_rm ps pid h =
      let (last, e) = get_elem?-within ps (length ps - 1) (omega arith) in
      ground (
        arith,
        e,
        length-take (length ps - 1) ps,
        length-take (length ps - 1) (move_last ps pid last),
        length-moved ps pid last,
      )

  moved_tail :
      (ps : List (Process F)) (pid i : ℕ) (last : Process F)
      → pid < length ps
      → get_elem? (move_last ps pid last) (suc i)
        ≡ (if pid == suc i then some (record last { id = pid }) else get_elem? ps (suc i))
  unfolding move_last
  moved_tail ps pid i last lt = ground (
    arith,
    with_mcp_tail (set ps pid (record last { id = pid }))
        (λ t. update t last.mcp_oid (λ o. record o { virtual_pid = pid })) i,
    get_elem?-set ps pid (suc i) (record last { id = pid }) lt,
  )

  -- Of the programs, that with the number `pid` is gone from the list; the last one has its number then,
  -- and the others have the numbers they had.
  pub process_list_rm-moves :
      (ps : List (Process F)) (pid i : ℕ)
      → 0 < pid
      → pid < length ps
      → get_elem? (process_list_rm ps pid) (suc i) ≡ (
          if suc (suc i) == length ps
          then none
          else if suc i == pid
          then (elim (get_elem? ps (length ps - 1)) [
            | none ↦ none
            | some last ↦ some (record last { id = pid })
          ])
          else get_elem? ps (suc i))
  unfolding process_list_rm
  process_list_rm-moves ps pid i pos lt =
      let (last, e) = get_elem?-within ps (length ps - 1) (omega arith) in
      ground (
        arith,
        e,
        get_elem?-take (length ps - 1) ps (suc i),
        get_elem?-take (length ps - 1) (move_last ps pid last) (suc i),
        moved_tail ps pid i last lt,
        get_elem?-beyond ps (suc i),
      )
