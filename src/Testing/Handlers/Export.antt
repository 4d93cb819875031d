-- ===== src/Testing/Handlers/Export.antt =====
-- `Export` and `writeCSV` of backend/internal/api/test_run.go. The writer of CSV is a list of rows;
-- the headers of the download are left out.
mod Tests
use sentinel_api_platform.Prelude.{
  ℕ, ℤ, pos, ◌≡◌, refl, inl, inr, Bool-cases, arith, sym, false, String, ◌==◌, eq_iff, Option, none,
  some, List, [], ◌∷◌, if◌then◌else◌,
}
use sentinel_api_platform.Errs.Mapper.{fail, write_error}
use sentinel_api_platform.Effects.{Result, ok, err, Call, Result-cases}
use sentinel_api_platform.Json.{Json, str, num, obj, Fields, entries, lookup, Std}
use sentinel_api_platform.Http.{Request, Reply, sent, failed, Handler}
use sentinel_api_platform.Runner.Executor.{TestResult}

-- A value of type `any`, as far as `writeCSV` tells its types apart: a list of values of type
-- `any`, or the list of results that the service returns.
pub data Dynamic : Type 0 where
  list_of_any : List Json → Dynamic
  list_of_results : List TestResult → Dynamic

-- The two bodies of an answer.
pub data Exported : Type 0 where
  csv : List (List String) → Exported
  json : List TestResult → Exported

abbrev pub string_of : Option Json → String
string_of (some (str s)) = s
string_of _ = ""

-- `strconv.Itoa` is a parameter. A number of a decoded document is a float64.
module _ (std : Std) (itoa : ℤ → String) where
  abbrev pub int_of : Option Json → ℤ
  int_of (some (num n)) = std.truncate n
  int_of _ = pos 0

  pub csv_row : List (String × Json) → List String
  csv_row m =
      string_of (lookup "id" m)
      ∷ string_of (lookup "case_id" m)
      ∷ string_of (lookup "status" m)
      ∷ itoa (int_of (lookup "actual_status" m))
      ∷ itoa (int_of (lookup "duration_ms" m))
      ∷ string_of (lookup "error_msg" m)
      ∷ string_of (lookup "created_at" m)
      ∷ []

  -- An item that is no map is skipped.
  pub csv_rows : List Json → List (List String)
  csv_rows [] = []
  csv_rows (obj m ∷ items) = csv_row (entries m) ∷ csv_rows items
  csv_rows (_ ∷ items) = csv_rows items

  abbrev pub csv_header : List String
  csv_header =
      "id" ∷ "case_id" ∷ "status" ∷ "actual_status" ∷ "duration_ms" ∷ "error_msg" ∷ "created_at"
      ∷ []

  unfoldable pub write_csv : Dynamic → Reply Exported
  write_csv (list_of_any items) = sent (csv (csv_header ∷ csv_rows items))
  write_csv (list_of_results results) = failed (fail 500 50000 "unexpected export type")

  abbrev pub exported : (ℕ → String) → Request → Result (List TestResult) → Reply Exported
  exported driver r (err e) = failed (write_error driver e)
  exported driver r (ok results) =
      if r.query "format" == "csv" then write_csv (list_of_results results) else sent (json results)

  -- `list_results` is the service's.
  unfoldable pub export_run :
      {S : Type 0}
      → (String → Call S (List TestResult))
      → (ℕ → String)
      → Request
      → Handler S Exported
  export_run list_results driver r s =
      let (found, s') = list_results (r.param "runId") s in (exported driver r found, s')

  -- Where an export is answered with data, the data is the list of the results as it was read, and
  -- CSV was not asked for: so no request for CSV is ever answered with data.
  pub export_run-sent :
      {S : Type 0} (list_results : String → Call S (List TestResult)) (driver : ℕ → String)
      (r : Request) (s : S) (d : Exported)
      → (export_run list_results driver r s).0 ≡ sent d
      → (results : List TestResult) × ((list_results (r.param "runId") s).0 ≡ ok results)
        × (d ≡ json results)
        × ((r.query "format" == "csv") ≡ false)
  unfolding export_run write_csv
  export_run-sent list_results driver r s d h =
      elim (Result-cases (list_results (r.param "runId") s).0) [
        | inr (why, e) ↦ (let stuck = rw (e, export_run) at h in ground arith)
        | inl (results, e) ↦ elim (Bool-cases (r.query "format" == "csv")) [
          | inl asked ↦ (let stuck = rw (e, export_run, asked) at h in ground arith)
          | inr other ↦
              (results, e, (let same = rw (e, export_run, other) at h in ground arith), other)
        ]
      ]
