-- ===== src/Samples/Correct.antt =====
-- The tests' tables are well formed.
use walletops.Prelude.{refl}
use walletops.Db.WellFormed.{IsWellFormed}
use walletops.Samples.{start_tables, delivered, claimed}

pub start_tables-IsWellFormed : IsWellFormed start_tables
start_tables-IsWellFormed = record {
  user_ids = (refl, tt);
  user_emails = (refl, tt);
  user_refs = (refl, tt);
  tokens = tt;
  token_owners = tt;
  summary_ids = tt;
  summary_owners = tt;
  rule_ids = (refl, (refl, tt));
  rule_owners = (refl, (refl, tt));
  event_ids = tt;
  event_keys = tt;
  event_rows = tt;
}

pub delivered-IsWellFormed : IsWellFormed delivered.tables
delivered-IsWellFormed = record {
  user_ids = (refl, tt);
  user_emails = (refl, tt);
  user_refs = (refl, tt);
  tokens = tt;
  token_owners = tt;
  summary_ids = tt;
  summary_owners = tt;
  rule_ids = (refl, (refl, tt));
  rule_owners = (refl, (refl, tt));
  event_ids = (refl, tt);
  event_keys = (refl, tt);
  event_rows = (record { owned = refl; matched = refl; life = (refl, refl, refl, refl, refl) }, tt);
}

pub claimed-IsWellFormed : IsWellFormed claimed.tables
claimed-IsWellFormed = record {
  user_ids = (refl, tt);
  user_emails = (refl, tt);
  user_refs = (refl, tt);
  tokens = tt;
  token_owners = tt;
  summary_ids = tt;
  summary_owners = tt;
  rule_ids = (refl, (refl, tt));
  rule_owners = (refl, (refl, tt));
  event_ids = (refl, tt);
  event_keys = (refl, tt);
  event_rows = (record { owned = refl; matched = refl; life = (refl, refl, refl, refl) }, tt);
}
