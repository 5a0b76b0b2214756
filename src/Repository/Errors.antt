-- ===== src/Repository/Errors.antt =====
-- Which errors a load can raise, whatever the tables hold.
use urim_platform.Repository.Rows.{RepositoryError, expected_bounded_string_quality_flags}
use urim_platform.Base.{◌≡◌, Result, err}

-- The only error that it can be is that of flags that cannot be read.
abbrev MayOnlyMissFlags : {A : Type 0} → Result RepositoryError A → Type 0
MayOnlyMissFlags m = (e : RepositoryError) → m ≡ err e → e ≡ expected_bounded_string_quality_flags
