-- ===== src/Tests/PatternTests.antt =====
-- Examples for fqdnrules/fqdn_pattern.py.
use fun_with_dragonfly_db.Prelude.{◌≡◌, ◌↔◌, refl, arith, Text, codes, split, ok}
use fun_with_dragonfly_db.Pattern.{
  clean_up, strip_end, strip_front, MatchMode, candidates, normalize_fqdn,
}
use fun_with_dragonfly_db.Pattern.Normalize.{IsNormal, normalize_fqdn-IsNormal}
use fun_with_dragonfly_db.Pattern.Covers.{IsAmong, Covers, candidates-Covers_iff}
use fun_with_dragonfly_db.Pattern.Ranks.{IncreasingFrom, ranks, candidates-IncreasingFrom}

abbrev name : Text
name = codes "host.example.com"

name_normal : normalize_fqdn (codes " Host.Example.COM. ") ≡ ok name
unfolding normalize_fqdn split clean_up strip_end strip_front
name_normal = refl

normalize_fqdn-IsNormal_example : IsNormal name
normalize_fqdn-IsNormal_example =
    normalize_fqdn-IsNormal (codes " Host.Example.COM. ") name name_normal

candidates-Covers_iff_example :
    IsAmong (codes "*.com") (candidates name MatchMode.multi_level 4)
    ↔ Covers MatchMode.multi_level name (codes "*.com")
candidates-Covers_iff_example = candidates-Covers_iff name MatchMode.multi_level 4 (codes "*.com")

candidates-IncreasingFrom_example :
    IncreasingFrom 0 (ranks (candidates name MatchMode.multi_level 4))
candidates-IncreasingFrom_example =
    candidates-IncreasingFrom name MatchMode.multi_level 4 (unfold split in omega arith)
