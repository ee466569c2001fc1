-- ===== src/Resource/Done.antt =====
-- What `doJob` leaves of a tree, by how it ends.
use bmw.Base.{
  Bool, Map, Option, String, arith, false, nat_eq, none, refl, some, string_eq, subst, sym, true, ℕ,
  ◌≡◌,
}
use bmw.Resource.Job.{
  after_child, after_node, do_job, do_jobs, do_node, get_result, get_results, mark_results,
}
use bmw.Resource.Types.{Buckets, Cloud, Error, JobNode, JobTree, JobTrees, and, leaf, tree}

-- No node is being processed.
abbrev mutual
  pub Idle : JobTree → Type 0
  Idle (tree n children) = (n.is_processing ≡ false) × (n.is_done ≡ true) × IdleAll children

  pub IdleAll : JobTrees → Type 0
  IdleAll leaf = Unit
  IdleAll (and t rest) = Idle t × IdleAll rest

module _ (c : Cloud) (b : Buckets) where
  open c use {World}

  do_node-idle :
      (out : Option String) (n : JobNode) (w : World)
      → let (w', (n', failed)) = do_node c b out n w in
        failed ≡ false → (n'.is_processing ≡ false) × (n'.is_done ≡ true)
  unfolding do_node
  do_node-idle out n w h = ground arith

  after_node-ok :
      (own : World × (JobNode × Bool)) (children : JobTrees)
      (below : World × (JobTrees × Option Error))
      → (after_node c b own children below).1.1 ≡ none
      → (own.1.1 ≡ false)
        × (below.1.1 ≡ none)
        × ((after_node c b own children below).1.0 ≡ tree own.1.0 below.1.0)
  unfolding after_node
  after_node-ok (w, (n, true)) children below h = cc
  after_node-ok (w, (n, false)) children (w', (children', err)) h = (refl, h, refl)

  after_child-ok :
      (first : World × (JobTree × Option Error)) (rest : JobTrees)
      (later : World × (JobTrees × Option Error))
      → (after_child c b first rest later).1.1 ≡ none
      → (first.1.1 ≡ none)
        × (later.1.1 ≡ none)
        × ((after_child c b first rest later).1.0 ≡ and first.1.0 later.1.0)
  unfolding after_child
  after_child-ok (w, (t, some e)) rest later h = cc
  after_child-ok (w, (t, none)) rest (w', (rest', err)) h = (refl, h, refl)

  mutual
    unfolding do_job

    do_job-IsIdle :
        (out : Option String) (t : JobTree) (w : World)
        → (do_job c b out t w).1.1 ≡ none
        → Idle (do_job c b out t w).1.0
    do_job-IsIdle out (tree n children) w h =
        let own = do_node c b out n w in
        let below = do_jobs c b (some own.1.0.out_file) children own.0 in
        let r = after_node-ok own children below h in
        let here = do_node-idle out n w (r.0) in
        subst Idle (sym (r.2))
          (here.0, here.1, do_jobs-IsIdle (some own.1.0.out_file) children own.0 (r.1))

    do_jobs-IsIdle :
        (out : Option String) (ts : JobTrees) (w : World)
        → (do_jobs c b out ts w).1.1 ≡ none
        → IdleAll (do_jobs c b out ts w).1.0
    do_jobs-IsIdle out leaf w h = tt
    do_jobs-IsIdle out (and t rest) w h =
        let first = do_job c b out t w in
        let r = after_child-ok first rest (do_jobs c b out rest first.0) h in
        subst IdleAll (sym (r.2))
          (do_job-IsIdle out t w (r.0), do_jobs-IsIdle out rest first.0 (r.1))

mutual
  unfolding get_result

  get_result-ok : (t : JobTree) (found : Map String ℕ) → Idle t → (get_result t found).1 ≡ none
  get_result-ok (tree n children) found h =
      ground (arith, get_results-ok children (mark_results n.bit_position n.result_map found))

  get_results-ok :
      (ts : JobTrees) (found : Map String ℕ) → IdleAll ts → (get_results ts found).1 ≡ none
  get_results-ok leaf found h = refl
  get_results-ok (and t rest) found h =
      ground (arith, get_result-ok t found, get_results-ok rest (get_result t found).0)

-- Where `doJob` returns no error, every node is done, none is still being processed, and so
-- `getResult` succeeds.
pub do_job-get_result :
    (c : Cloud) (b : Buckets) (t : JobTree) (w : c.World) (found : Map String ℕ)
    → (do_job c b none t w).1.1 ≡ none
    → Idle (do_job c b none t w).1.0 × ((get_result (do_job c b none t w).1.0 found).1 ≡ none)
do_job-get_result c b t w found h =
    let idle = do_job-IsIdle c b none t w h in
    (idle, get_result-ok (do_job c b none t w).1.0 found idle)
