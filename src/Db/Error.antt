-- ===== src/Db/Error.antt =====
-- What a statement may answer in place of a result.
-- pgx.ErrNoRows, a unique constraint (SQLSTATE 23505), another constraint, a text that does not parse
-- as its column's type, or no answer at all.
pub data SqlError : Type 0 where
  no_rows unique_violation constraint_violation invalid_text connection_lost : SqlError
