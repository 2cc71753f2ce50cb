-- ===== src/Redis.antt =====
-- The Redis or Dragonfly server that the Python code talks to, as an interface: the hash commands
-- that fqdnrules/fqdn_router.py sends, with their documented effect on what HGET reads.
pub mod Memory
use fun_with_dragonfly_db.Prelude.{
  ℕ, ◌≡◌, Bool, ◌&&◌, Option, none, some, List, map, Text, text_eq, if◌then◌else◌,
}

abbrev pub count_of {ℓ} : {A : Type ℓ} → Option A → ℕ
count_of none = 0
count_of (some x) = 1

pub record Redis : Type 1 where
  pub Db : Type 0
  pub hget : Db → Text → Text → Option Text
  pub hmget : Db → Text → List Text → List (Option Text)
  pub hset : Text → Text → Text → Db → Db
  pub hdel : Text → Text → Db → ℕ × Db
  -- HMGET answers as an HGET of each field.
  pub hmget_law : (db : Db) (k : Text) (fs : List Text) → hmget db k fs ≡ map (hget db k) fs
  -- HSET replaces one field of one key.
  pub hget-hset :
      (db : Db) (k f v k' f' : Text)
      → hget (hset k f v db) k' f'
        ≡ (if text_eq k k' && text_eq f f' then some v else hget db k' f')
  -- HDEL removes one field of one key, and answers how many fields it removed.
  pub hget-hdel :
      (db : Db) (k f k' f' : Text)
      → hget (hdel k f db).1 k' f' ≡ (if text_eq k k' && text_eq f f' then none else hget db k' f')
  pub hdel_count : (db : Db) (k f : Text) → (hdel k f db).0 ≡ count_of (hget db k f)
