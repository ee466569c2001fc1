-- ===== src/Resource/Bucket.antt =====
-- Buckets, worker/resource/bucket.go.
use bmw.Base.{
  Bool, Option, String, false, if◌then◌else◌, lookup, ltb, nat_eq, none, not, some, string_eq, true,
  ◌<>◌,
}
use bmw.Resource.Types.{Buckets, Cloud, Provider, qiniu, s3}

unfoldable pub get_bucket_pool : Buckets → String → Option Provider
get_bucket_pool b bucket = lookup bucket b.pool

-- `pool.Get().(Bucket)`: the bucket's domain, or `none` where `NewQiniuBucket` or `NewS3Bucket`
-- returns nil.
unfoldable pub new_bucket : Buckets → String → Option String
new_bucket b name = lookup name b.domains

unfoldable pub get_url : String → String → String
get_url domain key = "http://" <> (domain <> ("/" <> key))

module _ (c : Cloud) where
  open c use {World, stat, put, can_open}

  -- `exists` of a `QiniuBucket`, and of an `S3Bucket`.
  unfoldable pub exists : Provider → String → String → World → Bool
  exists qiniu name key w = elim (stat name key w) [ none ↦ false | some size ↦ ltb 0 size ]
  exists s3 name key w = elim (stat name key w) [ none ↦ false | some size ↦ true ]

  -- `Upload`; `true` is an error.
  unfoldable pub upload : Provider → String → String → String → World → World × Bool
  unfolding exists
  upload qiniu name key file w =
      if exists qiniu name key w
      then (w, false)
      else let (w', sent) = put name key file w in (w', not sent)
  upload s3 name key file w =
      if exists s3 name key w
      then (w, false)
      else if not (can_open file w)
      then (w, true)
      else let (w', sent) = put name key file w in (w', not sent)
