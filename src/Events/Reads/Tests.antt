-- ===== src/Events/Reads/Tests.antt =====
-- The list of a user's events on sample rows.
use walletops.Prelude.{some, ◌≡◌, refl, [], ◌∷◌}
use walletops.Db.Exec.{Env, ok, handle, run, pure, raise}
use walletops.Db.Sql.{select, order_desc, insert_desc}
use walletops.Events.Reads.{listed, select_for_user, list_for_user, get_for_user}
use walletops.Events.Reads.Ownership.{Lookup, get_for_user-Lookup}
use walletops.Events.Reads.Listing.{IsListing, list_for_user-IsListing}
use walletops.Samples.{quiet, claimed, claimed_row}

transfer_listed : (list_for_user 1 "" quiet claimed).0 ≡ ok (claimed_row.event ∷ [])
unfolding list_for_user select_for_user listed handle run pure raise select order_desc insert_desc
transfer_listed = refl

list_for_user-IsListing_example :
    IsListing 1 "" claimed.tables.events (claimed_row.event ∷ [])
    × ((list_for_user 1 "" quiet claimed).1.tables ≡ claimed.tables)
list_for_user-IsListing_example =
    list_for_user-IsListing 1 "" quiet claimed (claimed_row.event ∷ []) transfer_listed

-- The sample environment reads no text as a uuid; this one reads each as 500.
abbrev reading : Env
reading = record quiet { uuid_of = λ _. some 500 }

get_for_user-Lookup_example :
    Lookup 2 (some 500) claimed.tables.events (get_for_user 2 "x" reading claimed).0
get_for_user-Lookup_example = get_for_user-Lookup 2 "x" reading claimed refl
