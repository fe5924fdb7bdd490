-- ===== src/Budget/Tests/Reports.antt =====
-- The endpoint of reports, applied to a service that knows one report. A date is its length.
use finora.Base.{◌≡◌, ◌≤◌, refl, [], some, none, Text, str, ok, if◌then◌else◌, length}
use finora.Golang.Text.{text_eq}
use finora.Golang.Time.{Time}
use finora.Golang.Float.{zero_float}
use finora.Http.{Context}
use finora.Http.Middleware.{user_id}
use finora.Budget.Domain.{ReportSummary}
use finora.Budget.Http.Services.{ReportService}
use finora.Budget.Http.Reports.{parse_report_date, summary}
use finora.Budget.Http.Reports.Range.{summary-range}

abbrev context : Context
context = record {
  method = str "GET";
  client_ip = [];
  headers = [];
  user_id = some (str "ann");
  request_id = none;
  written = [];
}

abbrev report : ReportSummary
report = record {
  from = str "a";
  to = str "b";
  categories = [];
  total_budgeted = zero_float;
  total_actual = zero_float;
}

abbrev service : ReportService (Unit {0})
service = record { summary = λ u from to s. ok report }

abbrev query : Text → Text
query name = if text_eq name (str "from") then str "10" else str "2024"

summary-range_example :
    (from to : Time) × (parse_report_date (λ layout t. some (length t)) (query (str "from"))
      ≡ some from)
    × (parse_report_date (λ layout t. some (length t)) (query (str "to")) ≡ some to)
    × (from ≤ to)
    × (service.summary (user_id context) from to tt ≡ ok report)
unfolding text_eq summary parse_report_date finora.Http.success_envelope
summary-range_example =
    summary-range (λ layout t. some (length t)) service context query tt report refl
