-- ===== src/Http/Health.antt =====
-- api/internal/httpapi/health.go. A snapshot function that is not given is `none`.
use walletops.Prelude.{String, Option, none, some}
use walletops.Db.Exec.{Exec, Sql, ok, handle, run}
use walletops.Http.{Handler, write_json}

-- Pool.Ping
abbrev pub ping : Sql (Unit {0})
ping m t = ok (tt, t)

pub record HealthBody (W Q : Type 0) : Type 0 where
  pub status : String
  pub error : Option String
  pub worker : Option W
  pub queue : Option Q

module _ {W Q E : Type 0} (worker_snapshot : Option W) (queue_snapshot : Option (Exec E Q)) where
  abbrev unavailable : Option String → Handler (HealthBody W Q)
  unavailable message =
      write_json 503
        (record { status = "unavailable"; error = message; worker = none; queue = none })

  abbrev available : Option Q → Handler (HealthBody W Q)
  available queue =
      write_json 200
        (record { status = "ok"; error = none; worker = worker_snapshot; queue = queue })

  unfoldable pub with_queue : Option (Exec E Q) → Handler (HealthBody W Q)
  with_queue none = available none
  with_queue (some snapshot) =
      handle snapshot (λ queue. available (some queue)) λ e. unavailable (some "queue_stats_failed")

  unfoldable pub serve_health : Handler (HealthBody W Q)
  unfolding with_queue
  serve_health = handle (run ping) (λ _. with_queue queue_snapshot) λ e. unavailable none
