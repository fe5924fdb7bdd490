-- ===== src/Budget/Http/Reports/Range.antt =====
-- report_handler.go: the range of a report.
use finora.Base.{
  ◌≡◌, ◌≤◌, Option, some, Text, str, Result, ok, err, ◌||◌, Option-cases, Bool-cases, inl, inr,
  arith,
}
use finora.Golang.Text.{is_empty}
use finora.Golang.Time.{Time, before}
use finora.Http.{Context, fail, success_envelope, payload_of}
use finora.Http.Middleware.{user_id}
use finora.Budget.Domain.{ReportSummary}
use finora.Budget.Http.{answer_or}
use finora.Budget.Http.Services.{ReportService}
use finora.Budget.Http.Reports.{parse_report_date, summary}

module _ (parse_time : Text → Text → Option Time) {S : Type 0} (service : ReportService S) where
  shown-report :
      (c : Context) (m : Text) (r : Result ReportSummary) (report : ReportSummary)
      → payload_of (answer_or c m (λ x. x) r) ≡ some report
      → r ≡ ok report
  unfolding answer_or success_envelope fail
  shown-report c m (ok x) report h = ground arith
  shown-report c m (err e) report h = absurd cc

  -- A report that is shown is the service's for the caller and for the two dates of the query, of
  -- which the second does not precede the first.
  pub summary-range :
      (c : Context) (query : Text → Text) (s : S) (report : ReportSummary)
      → payload_of (summary parse_time service c query s).0 ≡ some report
      → (from to : Time) × (parse_report_date parse_time (query (str "from")) ≡ some from)
        × (parse_report_date parse_time (query (str "to")) ≡ some to)
        × (from ≤ to)
        × (service.summary (user_id c) from to s ≡ ok report)
  unfolding summary fail
  summary-range c query s report h =
      elim (Bool-cases (is_empty (query (str "from")) || is_empty (query (str "to")))) [
        | inl missing ↦ absurd (ground arith)
        | inr given ↦ elim (Option-cases (parse_report_date parse_time (query (str "from")))) [
          | inl bad ↦ absurd (ground arith)
          | inr (from, since) ↦
              elim (Option-cases (parse_report_date parse_time (query (str "to")))) [
                | inl bad ↦ absurd (ground arith)
                | inr (to, until) ↦ elim (Bool-cases (before to from)) [
                  | inl early ↦ absurd (ground arith)
                  | inr ordered ↦ (
                    from,
                    to,
                    since,
                    until,
                    ground arith,
                    shown-report c (str "failed to build report summary")
                        (service.summary (user_id c) from to s) report
                        (rw (given, since, until, ordered, summary) at h),
                  )
                ]
              ]
        ]
      ]
