-- ===== src/Resource/Uploads.antt =====
-- What the uploads of one node leave of its map.
use bmw.Base.{
  All, Bool, Map, Option-cases, String, [], ap, arith, false, inl, inr, keys, nat_eq, none, not,
  refl, string_eq, true, ◌&&◌, ◌∷◌, ◌≡◌, ◌≢◌,
}
use bmw.Resource.Bucket.{get_bucket_pool, new_bucket}
use bmw.Resource.Job.{upload_all, upload_to}
use bmw.Resource.Types.{Buckets, Cloud, JobNode}

-- Every bucket of the map is marked.
unfoldable pub all_marked : Map String Bool → Bool
all_marked [] = true
all_marked ((dest, v) ∷ m) = v && all_marked m

module _ (c : Cloud) (b : Buckets) where
  open c use {World}

  -- A bucket that the pool and the domains know.
  abbrev pub Known : String → Type 0
  Known dest = (get_bucket_pool b dest ≢ none) × (new_bucket b dest ≢ none)

  upload_to-Known :
      (n : JobNode) (file dest : String) (w : World)
      → Known dest
      → (upload_to c b n file dest w).1.0 ≡ not (upload_to c b n file dest w).1.1
  unfolding upload_to
  upload_to-Known n file dest w k = elim (Option-cases (get_bucket_pool b dest)) [
    | inl e ↦ absurd (k.0 e)
    | inr (provider, e) ↦ elim (Option-cases (new_bucket b dest)) [
      | inl e' ↦ absurd (k.1 e')
      | inr (domain, e') ↦ rw (e, upload_to) (rw (e', upload_to) refl)
    ]
  ]

  -- The uploads of a node whose buckets are all known keep the buckets and their order, and an error
  -- is reported exactly where a bucket is left unmarked: without one, every bucket is marked.
  pub upload_all-marks :
      (n : JobNode) (file : String) (m : Map String Bool) (w : World)
      → All Known (keys m)
      → let (w', (m', failed)) = upload_all c b n file m w in
        (keys m' ≡ keys m) × (failed ≡ not (all_marked m'))
  unfolding upload_all keys all_marked
  upload_all-marks n file [] w k = (refl, refl)
  upload_all-marks n file ((dest, true) ∷ m) w k =
      let r = upload_all-marks n file m w k.1 in (ap (◌∷◌ dest) (r.0), r.1)
  upload_all-marks n file ((dest, false) ∷ m) w k =
      let w₁ = (upload_to c b n file dest w).0 in
      let r = upload_all-marks n file m w₁ k.1 in
      let own = upload_to-Known n file dest w k.0 in (ap (◌∷◌ dest) (r.0), ground arith)
