-- ===== src/Events/Queue/Claiming.antt =====
-- What a claim takes: the oldest row that qualifies, and no other row changes.
use walletops.Prelude.{
  ℕ, ◌≤◌, ◌==◌, ◌≡◌, refl, sym, Bool, true, false, not, ◌&&◌, Option, none, some, List, arith, All,
  In, Option-cases, inl, inr, ==_refl, ap, ◌∙◌, All-In,
}
use walletops.Db.Tables.{Tables}
use walletops.Db.Error.{SqlError, no_rows}
use walletops.Db.Sql.{select, update_where, updated}
use walletops.Db.Sql.Order.{
  In-select, All-select_of, first-order_asc, IsOldest, Apart-only, select-nil, In-any,
}
use walletops.Db.Rows.{updated-some, updated-none}
use walletops.Db.Exec.{Moment, ok, err, Result}
use walletops.Db.WellFormed.{IsWellFormed, same_event}
use walletops.Events.Types.{Event, EventRow}
use walletops.Events.Queue.{claim, claimable, next_row, claim_row, claim_next_sql, update_event}

module _ (max_attempts secs : ℕ) (m : Moment) where
  -- The row may be taken at this moment: it qualifies, and no transaction holds it.
  abbrev pub is_free : EventRow → Bool
  is_free r = claimable max_attempts secs m.now r && not (m.locked r.id)

  -- The row is there and may be taken, and no row that may be taken was received before it.
  pub record IsNext (rows : List EventRow) (r : EventRow) : Type 0 where
    pub present : In r rows
    pub free : is_free r ≡ true
    pub oldest : All (λ x. is_free x ≡ true → r.received_at ≤ x.received_at) rows

  abbrev pub Next : List EventRow → Option EventRow → Type 0
  Next rows none = All (λ x. is_free x ≡ false) rows
  Next rows (some r) = IsNext rows r

  Next-row_cases :
      (rows : List EventRow) (o : Option EventRow)
      → IsOldest (λ r. r.received_at) (select is_free rows) o
      → Next rows o
  Next-row_cases rows none h = select-nil is_free rows h
  Next-row_cases rows (some r) (i, h) = record {
    present = (In-select is_free r rows i).0;
    free = (In-select is_free r rows i).1;
    oldest = All-select_of _ is_free rows h;
  }

  pub next_row_lem : (rows : List EventRow) → Next rows (next_row max_attempts secs m rows)
  unfolding next_row
  next_row_lem rows =
      Next-row_cases rows _ (first-order_asc (λ r. r.received_at) (select is_free rows))

  -- What a claim answers: the next row, claimed and the only one that changes, or that there is none.
  abbrev pub Claims : Tables → Result SqlError (Event × Tables) → Type 0
  Claims t (err e) = (e ≡ no_rows) × All (λ x. is_free x ≡ false) t.events
  Claims t (ok (e, t')) =
      (r : EventRow) × IsNext t.events r
      × (e ≡ (claim m.now r).event)
      × (t' ≡ record t { events = update_where (λ x. x.id == r.id) (claim m.now) t.events })
      × All (λ x. (x.id == r.id) ≡ true → x ≡ r) t.events

  claim_row-Claims :
      (t : Tables) (o : Option EventRow)
      → IsWellFormed t
      → Next t.events o
      → Claims t (claim_row o m t)
  unfolding claim_row
  claim_row-Claims t none v n = (refl, n)
  claim_row-Claims t (some r) v n =
      elim (Option-cases (updated (λ x. x.id == r.id) (claim m.now) t.events)) [
        | inl e ↦ absurd (
            cc (
              updated-none (λ x. x.id == r.id) (claim m.now) t.events e,
              In-any (λ x. x.id == r.id) r t.events n.present (==_refl r.id),
            ))
        | inr (y, e) ↦
            rw (e, update_event)
              (let only =
                  Apart-only same_event r t.events (λ x z. ground arith) v.event_ids n.present in
                let (x, h, c, i) = updated-some (λ x. x.id == r.id) (claim m.now) t.events y e in
                let same : x ≡ r =
                  All-In (λ x. (x.id == r.id) ≡ true → x ≡ r) x t.events only i h in
                (
                  r,
                  n,
                  sym (ap (λ z. z.event) c) ∙ ap (λ z. (claim m.now z).event) same,
                  refl,
                  only,
                ))
      ]

  -- In well formed tables a claim takes the oldest row that may be taken, changes that row alone, and
  -- finds none only if no row may be taken.
  pub claim_next_sql-Claims :
      (t : Tables) → IsWellFormed t → Claims t (claim_next_sql max_attempts secs m t)
  unfolding claim_next_sql
  claim_next_sql-Claims t v = claim_row-Claims t _ v (next_row_lem t.events)
