-- ===== src/Security/Operations.antt =====
-- cf_security_operation in include/chromofold/security_release.h
use chromo_fold.Prelude.{ℕ}

abbrev pub register_worker : ℕ
register_worker = 1

abbrev pub publish_manifest : ℕ
publish_manifest = 2

abbrev pub read_page : ℕ
read_page = 3

abbrev pub transfer_lease : ℕ
transfer_lease = 4

abbrev pub route_request : ℕ
route_request = 5

abbrev pub update_policy : ℕ
update_policy = 6

abbrev pub drain_worker : ℕ
drain_worker = 7

abbrev pub inspect_usage : ℕ
inspect_usage = 8
