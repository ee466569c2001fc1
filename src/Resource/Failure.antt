-- ===== src/Resource/Failure.antt =====
-- `doJob` of worker/resource/job.go where the first file of a tree cannot be made.
use bmw.Base.{
  ==-ne, Bool, Option, String, arith, false, nat_eq, none, refl, some, string_eq, subst, sym, true,
  ◌≡◌,
}
use bmw.Resource.Bits.{bits, bits_all}
use bmw.Resource.Generate.{make_file}
use bmw.Resource.Job.{
  after_child, after_node, create_and_upload, do_job, do_jobs, do_node, take_in_file,
}
use bmw.Resource.Types.{Buckets, Cloud, Error, JobNode, JobTree, JobTrees, and, leaf, tree}

-- No node has an input of its own, as below the root of every tree that the worker makes.
abbrev mutual
  pub NoInput : JobTree → Type 0
  NoInput (tree n children) = (n.in_file ≡ "") × (n.out_file ≡ "") × NoInputAll children

  pub NoInputAll : JobTrees → Type 0
  NoInputAll leaf = Unit
  NoInputAll (and t rest) = NoInput t × NoInputAll rest

module _ (c : Cloud) (b : Buckets) where
  open c use {World}

  skipped_node :
      (n : JobNode) (w : World)
      → n.in_file ≡ ""
      → n.out_file ≡ ""
      → do_node c b (some "") n w ≡ (w, (record n { is_done = true; is_processing = false }, false))
  unfolding do_node take_in_file
  skipped_node n w h o = ground arith

  -- What a skipped job leaves: the world, no error, and a tree with the same bits.
  after_node-skipped :
      (k : String) (n : JobNode) (o : String) (children : JobTrees) (w : World)
      (below : World × (JobTrees × Option Error))
      → below.0 ≡ w
      → below.1.1 ≡ none
      → bits_all k below.1.0 ≡ bits_all k children
      → let n' = record n { out_file = o; is_done = true; is_processing = false } in
        let r = after_node c b (w, (n', false)) children below in
        (r.0 ≡ w) × (r.1.1 ≡ none) × (bits k r.1.0 ≡ bits k (tree n children))
  unfolding after_node bits
  after_node-skipped k n o children w (w', (children', err)) h e same = (h, e, ground arith)

  after_child-skipped :
      (k : String) (t : JobTree) (rest : JobTrees) (w : World)
      (first : World × (JobTree × Option Error)) (later : World × (JobTrees × Option Error))
      → first.1.1 ≡ none
      → bits k first.1.0 ≡ bits k t
      → later.0 ≡ w
      → later.1.1 ≡ none
      → bits_all k later.1.0 ≡ bits_all k rest
      → let r = after_child c b first rest later in
        (r.0 ≡ w) × (r.1.1 ≡ none) × (bits_all k r.1.0 ≡ bits_all k (and t rest))
  unfolding after_child bits
  after_child-skipped k t rest w (w₁, (t', none)) (w₂, (rest', err)) e same h e' same' =
      (h, e', ground arith)
  after_child-skipped k t rest w (w₁, (t', some x)) later e same h e' same' = cc

  mutual
    unfolding do_job

    skipped_job :
        (k : String) (t : JobTree) (w : World) (out : String)
        → out ≡ ""
        → NoInput t
        → let r = do_job c b (some out) t w in
          (r.0 ≡ w) × (r.1.1 ≡ none) × (bits k r.1.0 ≡ bits k t)
    skipped_job k (tree n children) w out empty h =
        let below = skipped_jobs k children w n.out_file h.1 h.2 in
        rw (empty, skipped_node n w h.0 h.1)
          (after_node-skipped k n n.out_file children w (do_jobs c b (some n.out_file) children w)
            below.0 below.1 below.2)

    skipped_jobs :
        (k : String) (ts : JobTrees) (w : World) (out : String)
        → out ≡ ""
        → NoInputAll ts
        → let r = do_jobs c b (some out) ts w in
          (r.0 ≡ w) × (r.1.1 ≡ none) × (bits_all k r.1.0 ≡ bits_all k ts)
    skipped_jobs k leaf w out empty h = (refl, refl, refl)
    skipped_jobs k (and t rest) w out empty h =
        let first = skipped_job k t w out empty h.0 in
        let later = skipped_jobs k rest w out empty h.1 in
        let r = do_job c b (some out) t w in
        let keep =
          subst
            (λ v.
              let l = do_jobs c b (some out) rest v in
              (l.0 ≡ w) × (l.1.1 ≡ none) × (bits_all k l.1.0 ≡ bits_all k rest))
            (sym first.0) later in
        after_child-skipped k t rest w r (do_jobs c b (some out) rest r.0) first.1 first.2 keep.0
          keep.1 keep.2

  create_failed :
      (busy : Bool) (n : JobNode) (w : World) (e : Error)
      → (make_file c n.create_file n.in_file w).1.1 ≡ some e
      → let (w', (file, err)) = make_file c n.create_file n.in_file w in
        create_and_upload c b busy n w ≡ (w', (record n { out_file = file }, false))
  unfolding create_and_upload
  create_failed busy n w e h = rw (h, make_file) (ground arith)

  -- The first node of a tree whose file cannot be made.
  failed_node :
      (n : JobNode) (w : World) (e : Error)
      → ¬ (n.in_file ≡ "")
      → (make_file c n.create_file n.in_file w).1.1 ≡ some e
      → let (w', (file, err)) = make_file c n.create_file n.in_file w in
        do_node c b none n w
        ≡ (w', (record n { out_file = file; is_done = true; is_processing = false }, false))
  unfolding do_node take_in_file
  failed_node n w e ne h =
      rw
        (
          ==-ne n.in_file "" ne,
          create_failed n.is_processing (record n { is_processing = true }) w e h,
        )
        refl

  -- `doJob` on a tree whose first file cannot be made answers nil all the same. Where that command
  -- leaves no file name, and no other node has a file of its own, nothing is uploaded: the clouds
  -- are as the command left them, and the bits of every bucket key are those from before.
  pub do_job-failed :
      (k : String) (n : JobNode) (children : JobTrees) (w : World) (e : Error)
      → ¬ (n.in_file ≡ "")
      → (make_file c n.create_file n.in_file w).1.1 ≡ some e
      → (make_file c n.create_file n.in_file w).1.0 ≡ ""
      → NoInputAll children
      → let made = make_file c n.create_file n.in_file w in
        let r = do_job c b none (tree n children) w in
        (r.0 ≡ made.0) × (r.1.1 ≡ none) × (bits k r.1.0 ≡ bits k (tree n children))
  unfolding do_job
  do_job-failed k n children w e ne h file below =
      let made = make_file c n.create_file n.in_file w in
      let rest = skipped_jobs k children made.0 made.1.0 file below in
      rw (failed_node n w e ne h) (
        after_node-skipped k n made.1.0 children made.0
          (do_jobs c b (some made.1.0) children made.0) rest.0 rest.1 rest.2)
