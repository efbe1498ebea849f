-- ===== src/Guc.antt =====
-- src/guc.rs: the settings and what the program reads of them. A text setting is its value in UTF-8,
-- or nothing; PostgreSQL keeps a number within the range that the program declares for it.
mod Tests
use pg_grpc.Common.{ℕ, ◌≤◌, String, Option, none, some, unwrap_or, if◌then◌else◌}
use pg_grpc.Text.{is_empty}

pub record Settings : Type 0 where
  pub database_name : Option String
  pub username : Option String
  pub ttl : Option String
  pub batch_size : ℕ

-- The values that the program starts with.
abbrev pub boot : Settings
boot = record {
  database_name = some "postgres";
  username = none;
  ttl = some "6 hours";
  batch_size = 200;
}

-- The range of `pg_grpc.batch_size` that `init` declares.
abbrev pub InBatchRange : ℕ → Type 0
InBatchRange n = (1 ≤ n) × (n ≤ 2147483647)

-- `Option::filter` by a text that is not empty.
abbrev pub non_empty : Option String → Option String
non_empty none = none
non_empty (some s) = if is_empty s then none else some s

unfoldable pub database_name : Settings → String
database_name g = unwrap_or g.database_name "postgres"

unfoldable pub username : Settings → Option String
username g = non_empty g.username

unfoldable pub ttl : Settings → String
ttl g = unwrap_or g.ttl "6 hours"

unfoldable pub batch_size : Settings → ℕ
batch_size g = g.batch_size
