-- ===== src/Table/Query/Paging.antt =====
-- The pages of a table: every row stands on one page.
use dbtabase_workbench.Common.{ℕ, ◌+◌, ◌/◌, ◌≤◌, ◌<◌, ◌≡◌, ◌↔◌, arith}
use dbtabase_workbench.Table.Query.{page_offset}

-- The row at a position, counted from 0, is among the rows that the LIMIT clause of a page asks
-- for exactly when the page, counted from 1, is the one of that position.
pub page_offset_window :
    (page page_size row : ℕ)
    → 1 ≤ page
    → 1 ≤ page_size
    → ((page_offset page page_size ≤ row) × (row < page_offset page page_size + page_size))
      ↔ (page ≡ row / page_size + 1)
unfolding page_offset
page_offset_window page page_size row h k = grind arith
