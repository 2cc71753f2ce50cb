-- ===== src/Redis/Memory.antt =====
-- A server in memory, which shows that the interface can be met; the examples run on it.
use fun_with_dragonfly_db.Prelude.{
  refl, ◌&&◌, Option, none, some, map, Text, text_eq, if◌then◌else◌,
}
use fun_with_dragonfly_db.Redis.{Redis, count_of}

abbrev pub Hashes : Type 0
Hashes = Text → Text → Option Text

abbrev pub empty_hashes : Hashes
empty_hashes k f = none

abbrev pub memory : Redis
memory = record {
  Db = Hashes;
  hget = λ db k f. db k f;
  hmget = λ db k fs. map (db k) fs;
  hset = λ k f v db k' f'. if text_eq k k' && text_eq f f' then some v else db k' f';
  hdel = λ k f db.
      (count_of (db k f), λ k' f'. if text_eq k k' && text_eq f f' then none else db k' f');
  hmget_law = λ db k fs. refl;
  hget-hset = λ db k f v k' f'. refl;
  hget-hdel = λ db k f k' f'. refl;
  hdel_count = λ db k f. refl;
}
