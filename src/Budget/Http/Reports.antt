-- ===== src/Budget/Http/Reports.antt =====
-- services/budget-service/internal/handler/report_handler.go. The query is an argument, and
-- `time.Parse` a parameter.
pub mod Range
use finora.Base.{Bool, ◌||◌, Option, none, some, Text, str, if◌then◌else◌}
use finora.Golang.Text.{is_empty}
use finora.Golang.Time.{Time, before}
use finora.Http.{Context, Response, fail, code_validation, keyed, no_details}
use finora.Http.Middleware.{user_id}
use finora.Budget.Domain.{ReportSummary}
use finora.Budget.Http.{answer_or}
use finora.Budget.Http.Services.{ReportService}
use finora.Budget.Http.Goals.{layout_rfc3339, layout_date}

-- The answer to a date of the query that does not do.
abbrev pub bad_field : {D : Type 0} → Context → Text → Text → Response D
bad_field c field message = fail c 400 code_validation message (keyed (str "field") field)

module _ (parse_time : Text → Text → Option Time) where
  unfoldable pub parse_report_date : Text → Option Time
  parse_report_date v = elim (parse_time layout_date v) [
    | some t ↦ some t
    | none ↦ elim (parse_time layout_rfc3339 v) [ some t ↦ some t | none ↦ none ]
  ]

  module _ {S : Type 0} (service : ReportService S) where
    unfoldable pub summary : Context → (Text → Text) → S → Response ReportSummary × S
    unfolding answer_or user_id parse_report_date
    summary c query s =
        if is_empty (query (str "from")) || is_empty (query (str "to"))
        then (
          fail c 400 code_validation (str "from and to query parameters are required") no_details,
          s,
        )
        else elim (parse_report_date (query (str "from"))) [
          | none ↦ (
            bad_field c (str "from") (str "from must be an RFC3339 timestamp or YYYY-MM-DD date"),
            s,
          )
          | some from ↦ elim (parse_report_date (query (str "to"))) [
            | none ↦ (
              bad_field c (str "to") (str "to must be an RFC3339 timestamp or YYYY-MM-DD date"),
              s,
            )
            | some to ↦
                if before to from
                then (bad_field c (str "to") (str "to must not be before from"), s)
                else (
                  answer_or c (str "failed to build report summary") (λ report. report)
                      (service.summary (user_id c) from to s),
                  s,
                )
          ]
        ]
