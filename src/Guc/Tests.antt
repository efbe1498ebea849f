-- ===== src/Guc/Tests.antt =====
-- What is read of some settings.
use pg_grpc.Common.{◌≡◌, refl, none, some, arith}
use pg_grpc.Guc.{boot, InBatchRange, database_name, username, ttl, batch_size}

boot_in_range : InBatchRange (batch_size boot)
unfolding batch_size
boot_in_range = (omega arith, omega arith)

blank_user : username (record boot { username = some "" }) ≡ none
unfolding username
blank_user = refl

reads_user : username (record boot { username = some "worker" }) ≡ some "worker"
unfolding username
reads_user = refl

falls_back : ttl (record boot { ttl = none }) ≡ "6 hours"
unfolding ttl
falls_back = refl

reads_database : database_name boot ≡ "postgres"
unfolding database_name
reads_database = refl
