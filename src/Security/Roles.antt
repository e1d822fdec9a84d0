-- ===== src/Security/Roles.antt =====
-- cf_security_role in include/chromofold/security_release.h
use chromo_fold.Prelude.{ℕ}

abbrev pub router : ℕ
router = 1

abbrev pub prefill : ℕ
prefill = 2

abbrev pub decode : ℕ
decode = 3

abbrev pub scheduler : ℕ
scheduler = 4

abbrev pub admin : ℕ
admin = 5
