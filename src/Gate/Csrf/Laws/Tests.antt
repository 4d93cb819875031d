-- ===== src/Gate/Csrf/Laws/Tests.antt =====
-- A request that deletes something, with the same token in the cookie and in the header.
use sentinel_api_platform.Prelude.{String, ◌≡◌, ◌⊎◌, ◌↔◌, true, false, ◌==◌, Option, some}
use sentinel_api_platform.Gate.Csrf.{goes_on, is_safe_method, csrf_required}
use sentinel_api_platform.Gate.Csrf.Laws.{csrf_required-goes_on_iff}

abbrev cookie : Option String
cookie = some "c7"

csrf_required-goes_on_iff_example :
    (csrf_required "DELETE" cookie "c7" ≡ goes_on)
    ↔ ((is_safe_method "DELETE" ≡ true) ⊎ ((cookie ≡ some "c7") × (("c7" == "") ≡ false)))
csrf_required-goes_on_iff_example = csrf_required-goes_on_iff "DELETE" cookie "c7"
