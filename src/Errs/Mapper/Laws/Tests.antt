-- ===== src/Errs/Mapper/Laws/Tests.antt =====
-- Responses to single errors.
use sentinel_api_platform.Prelude.{ℕ, ◌≡◌, refl, String}
use sentinel_api_platform.Errs.{Error, wrapped, sentinel, conflict}
use sentinel_api_platform.Errs.Mapper.{write_error}
use sentinel_api_platform.Errs.Mapper.Laws.{root, table, write_error-table}

abbrev driver_text : ℕ → String
driver_text n = "Error 1062"

abbrev slug_taken : Error
slug_taken = wrapped "create project: " (wrapped "project_repo: " (sentinel conflict) "") ""

slug_taken-status : (write_error driver_text slug_taken).status ≡ 409
unfolding write_error
slug_taken-status = refl

write_error-table_example :
    ((write_error driver_text slug_taken).status ≡ (table (root slug_taken)).0)
    × ((write_error driver_text slug_taken).code ≡ (table (root slug_taken)).1)
write_error-table_example = write_error-table driver_text slug_taken
