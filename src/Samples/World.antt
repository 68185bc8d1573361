-- ===== src/Samples/World.antt =====
-- The services of the samples together, a notification, and providers that answer as they are told.
use high_throughput_notifica.Decimal.{str}
use high_throughput_notifica.Queue.{score_of}
use high_throughput_notifica.Queue.Order.{Entries}
use high_throughput_notifica.Prelude.{
  ℕ, ◌+◌, sym, ◌∷◌, arith, Bool, true, false, none, some, List, [],
}
use high_throughput_notifica.Exec.{ok}
use high_throughput_notifica.Model.Json.{object, end}
use high_throughput_notifica.Model.Enums.{email, sms, push}
use high_throughput_notifica.Model.Row.{Notification}
use high_throughput_notifica.Provider.{ProviderResult, BaseProvider, Providers}
use high_throughput_notifica.Services.{Services, World}
use high_throughput_notifica.Dispatch.{Chance}
use high_throughput_notifica.Samples.Table.{Memory, memory}
use high_throughput_notifica.Samples.Store.{Keys, store, single-score}
use high_throughput_notifica.Samples.Exchange.{exchange}

-- Services with an outage of the INSERTs or of the broker. The outside counts deliveries.
abbrev pub services : (outage broker_up : Bool) → Services
services outage broker_up = record {
  database = memory outage;
  redis = store;
  broker = exchange broker_up;
  Outside = ℕ;
}

abbrev pub otp : (status retry_count : ℕ) → Notification
otp status retry_count = record {
  id = 7;
  idempotency_key = "payment-9-sms";
  source_service = 2;
  event_type = 5;
  channel = 2;
  recipient = "+4912345";
  priority = 1;
  status = status;
  error_code = none;
  retry_count = retry_count;
  next_retry_time = none;
  external_id = none;
  content = object end;
  ctime = some 50;
  mtime = none;
  stime = none;
}

abbrev pub holding : List Notification → Memory
holding rows = record { rows = rows; clock = 60 }

abbrev pub idle : Keys
idle = record { keys = []; entries = []; expiries = [] }

abbrev pub provider : Bool → ProviderResult → BaseProvider ℕ
provider healthy result = record {
  channel = sms;
  send = λ recipient content count. (ok result, count + 1);
  health_check = λ count. (ok healthy, count);
}

abbrev pub only_sms : BaseProvider ℕ → Providers ℕ
only_sms p email = none
only_sms p sms = some p
only_sms p push = none

abbrev pub delivered : ProviderResult
delivered = record {
  success = true;
  external_id = some "mock-sms-1";
  error_code = none;
  error_message = none;
}

abbrev pub refused : ℕ → ProviderResult
refused code = record {
  success = false;
  external_id = none;
  error_code = some code;
  error_message = none;
}

abbrev pub chance : Chance
chance = record { now = 100; now_iso = "2026-03-19T00:01:40+00:00"; draw = 4 }

module _ (outage broker_up : Bool) where
  unfoldable pub world : List Notification → World (services outage broker_up)
  unfolding memory store exchange
  world rows = record {
    db = holding rows;
    redis = idle;
    broker = [];
    rmq_connection = none;
    rmq_channel = none;
    expired = [];
    outside = 0;
  }

  -- The same with notification 7 in the queue, with priority 1 since the time 500.
  unfoldable pub waiting : List Notification → World (services outage broker_up)
  unfolding memory store exchange str
  waiting rows = record {
    db = holding rows;
    redis = record { keys = []; entries = (str 7, 1000000000500) ∷ []; expiries = [] };
    broker = [];
    rmq_connection = none;
    rmq_channel = none;
    expired = [];
    outside = 0;
  }

  pub waiting_lem :
      (rows : List Notification) → Entries {E = services outage broker_up} 0 (waiting rows)
  unfolding waiting store
  waiting_lem rows m x h =
      let one = single-score (str 7) m 1000000000500 x h in
      record {
        id = 7;
        priority = 1;
        time = 500;
        is_id = sym one.0;
        is_score = unfold score_of in sym one.1;
        in_window = (omega arith, omega arith);
      }
