-- ===== src/Events/Handler.antt =====
-- api/internal/events/handler.go
use walletops.Prelude.{String, Option, none, some, List}
use walletops.Db.Exec.{handle}
use walletops.Http.{UserContext, Handler, write_json, write_error}
use walletops.Events.Types.{Event, Error, not_found}
use walletops.Events.Reads.{list_for_user, get_for_user}

-- `status` is the query's parameter, empty if it is not given. The reply wraps the list as `items`.
unfoldable pub list_events : Option UserContext → String → Handler (List Event)
list_events none status = write_error 401 "unauthorized" "missing auth"
list_events (some user) status =
    handle (list_for_user user.id status) (write_json 200)
      λ e. write_error 500 "internal_error" "could not list events"

unfoldable pub get_failed : Error → Handler Event
get_failed not_found = write_error 404 "not_found" "event not found"
get_failed e = write_error 500 "internal_error" "could not get event"

unfoldable pub get_event : Option UserContext → String → Handler Event
unfolding get_failed
get_event none id = write_error 401 "unauthorized" "missing auth"
get_event (some user) id = handle (get_for_user user.id id) (write_json 200) get_failed
