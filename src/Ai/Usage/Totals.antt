-- ===== src/Ai/Usage/Totals.antt =====
-- The headline figures add up, and follow the rows that are written.
use trading_brain.Base.{
  ℕ, ◌+◌, ◌≤◌, ◌≡◌, ap, ◌∙◌, Bool, ◌&&◌, not, Option, none, some, List, [], ◌∷◌, ◌++◌, arith, leb,
  if◌then◌else◌, length, keep, length-keep, keep-append,
}
use trading_brain.Ai.Schemas.{Name, AiRequest, AiResponse}
use trading_brain.Ai.Usage.{
  AiRequestRecord, UsageSummary, audit_row, since_rows, sql_sum, count_if, usage_summary,
  spend_in_window, is_local_row,
}

count-complement :
    (p : AiRequestRecord → Bool) (rows : List AiRequestRecord)
    → count_if p rows + count_if (λ r. not (p r)) rows ≡ length rows
count-complement p [] = omega arith
count-complement p (r ∷ rows) = ground (arith, count-complement p rows)

-- A summary is absent exactly if no row is in the window. Its calls are the successes and the failures,
-- and are the local and the other calls; the failures are the rows without success; no part exceeds
-- the whole.
usage_summary-balances :
    (local : Name) (since : ℕ) (table : List AiRequestRecord) (s : UsageSummary)
    → usage_summary local since table ≡ some s
    → (s.calls ≡ length (since_rows since table))
      × (s.succeeded + s.failed ≡ s.calls)
      × (s.failed ≡ count_if (λ r. not r.success) (since_rows since table))
      × (s.local_calls + s.frontier_calls ≡ s.calls)
      × (s.blocked ≤ s.calls)
      × (s.cache_hits ≤ s.calls)
      × (s.escalations ≤ s.calls)
      × (s.calls_with_unknown_cost ≤ s.calls)
unfolding usage_summary
usage_summary-balances local since table s h =
    let rows = since_rows since table in
    ground (
      arith,
      h,
      count-complement (λ r. r.success) rows,
      count-complement (is_local_row local) rows,
      length-keep (λ (r : AiRequestRecord). r.blocked) rows,
      length-keep (λ (r : AiRequestRecord). r.cache_hit) rows,
      length-keep (λ (r : AiRequestRecord). r.escalated) rows,
      length-keep (λ (r : AiRequestRecord). not r.cost_known) rows,
    )

abbrev pub or_zero : Option ℕ → ℕ
or_zero none = 0
or_zero (some n) = n

sql_sum-append :
    (f : AiRequestRecord → Option ℕ) (rows more : List AiRequestRecord)
    → or_zero (sql_sum f (rows ++ more)) ≡ or_zero (sql_sum f rows) + or_zero (sql_sum f more)
unfolding sql_sum
sql_sum-append f [] more = omega arith
sql_sum-append f (r ∷ rows) more = ground (arith, sql_sum-append f rows more)

abbrev known_rows : ℕ → List AiRequestRecord → List AiRequestRecord
known_rows since table =
    keep (λ (r : AiRequestRecord). r.cost_known)
      (keep (λ (r : AiRequestRecord). leb since r.created_at) table)

known_rows-append :
    (since : ℕ) (table more : List AiRequestRecord)
    → known_rows since (table ++ more) ≡ known_rows since table ++ known_rows since more
known_rows-append since table more =
    ap (keep (λ (r : AiRequestRecord). r.cost_known))
      (keep-append (λ (r : AiRequestRecord). leb since r.created_at) table more)
    ∙ keep-append (λ (r : AiRequestRecord). r.cost_known)
        (keep (λ (r : AiRequestRecord). leb since r.created_at) table) _

spend_of_one :
    (since : ℕ) (q : AiRequest) (r : AiResponse)
    → or_zero (sql_sum (λ r. r.estimated_cost) (known_rows since (audit_row q r ∷ [])))
      ≡ (if leb since q.context.created_at && r.cost.known then or_zero r.cost.amount else 0)
unfolding audit_row sql_sum
spend_of_one since q r = ground arith

-- The spend of a window grows with each row that the recorder writes by the cost of the response if it
-- is known and falls into the window, and by nothing otherwise: an unknown cost is not estimated.
spend_in_window-audit_row :
    (since : ℕ) (table : List AiRequestRecord) (q : AiRequest) (r : AiResponse)
    → or_zero (spend_in_window since (table ++ audit_row q r ∷ []))
      ≡ or_zero (spend_in_window since table)
        + (if leb since q.context.created_at && r.cost.known then or_zero r.cost.amount else 0)
unfolding spend_in_window since_rows audit_row
spend_in_window-audit_row since table q r =
    ap (λ rows. or_zero (sql_sum (λ r. r.estimated_cost) rows))
      (known_rows-append since table (audit_row q r ∷ []))
    ∙ sql_sum-append (λ r. r.estimated_cost) (known_rows since table) _
    ∙ ap (λ n. or_zero (sql_sum (λ r. r.estimated_cost) (known_rows since table)) + n)
        (spend_of_one since q r)
