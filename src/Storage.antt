-- ===== src/Storage.antt =====
-- The object store (internal/storage/s3.go). The S3 client and url.PathEscape are parameters.
use lillian_backend.Common.{
  ℕ, Text, codes, trim_space, trim_left_of, trim_right_of, is_nil, or_text, split_at, join, not,
  Option, none, some, List, [], ◌++◌, map, if◌then◌else◌, Result, ok, err,
}
use lillian_backend.Config.{StorageConfig}

unfoldable pub clean_key : Text → Text
clean_key key = trim_left_of b'/' (trim_space key)

abbrev not_configured : Text
not_configured = codes "object store is not configured"

-- Over url.PathEscape and the client's calls, of a bucket and a key; the store is none for a nil
-- pointer. Only the calls that the program makes of the client are here.
module _ (path_escape : Text → Text) where
  unfoldable pub public_path : Text → Text
  unfolding clean_key split_at
  public_path key = join (codes "/") (map path_escape (split_at b'/' (clean_key key)))

  unfoldable pub public_url : Option StorageConfig → Text → Text
  unfolding public_path
  public_url none key = []
  public_url (some cfg) key =
      if not (is_nil cfg.public_base_url)
      then cfg.public_base_url ++ (codes "/" ++ public_path key)
      else if not (is_nil cfg.endpoint)
      then trim_right_of b'/' cfg.endpoint
        ++ (codes "/" ++ (cfg.bucket ++ (codes "/" ++ public_path key)))
      else []

  module _ {client : Type 0} where
    -- The client's PutObject: a new state of the bucket, or an error.
    unfoldable pub put_bytes :
        (client → Text → Text → List ℕ → Text → Result Text client)
        → Option StorageConfig
        → client
        → Text
        → List ℕ
        → Text
        → Result Text (client × Text)
    unfolding clean_key public_url
    put_bytes put_object none c key bytes content_type = err not_configured
    put_bytes put_object (some cfg) c key bytes content_type =
        elim (put_object c cfg.bucket (clean_key key) bytes
          (or_text content_type (codes "application/octet-stream"))) [
            | err e ↦ err e
            | ok c' ↦ ok (c', public_url (some cfg) key)
          ]

module _ {client : Type 0} where
  -- GetObject gives the bytes and, where the answer has one, the content type.
  unfoldable pub get :
      (client → Text → Text → Result Text (List ℕ × Option Text))
      → Option StorageConfig
      → client
      → Text
      → Result Text (List ℕ × Text)
  unfolding clean_key
  get get_object none c key = err not_configured
  get get_object (some cfg) c key = elim (get_object c cfg.bucket (clean_key key)) [
    | err e ↦ err e
    | ok (bytes, none) ↦ ok (bytes, [])
    | ok (bytes, some kind) ↦ ok (bytes, kind)
  ]

  unfoldable pub delete :
      (client → Text → Text → Result Text client)
      → Option StorageConfig
      → client
      → Text
      → Result Text client
  unfolding clean_key
  delete delete_object none c key = err not_configured
  delete delete_object (some cfg) c key = delete_object c cfg.bucket (clean_key key)
