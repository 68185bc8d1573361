-- ===== src/Handler/Routes.antt =====
-- The ways of the messages to a handler that runs.
use high_throughput_notifica.Prelude.{String}
use Prim.Native.String.{◌++◌ as text_append}
use high_throughput_notifica.Model.Enums.{SourceService}
use high_throughput_notifica.Model.Names.{source_name}
use high_throughput_notifica.Services.{Broker, Topology}
use high_throughput_notifica.Publisher.Accepted.{Accepted}
use high_throughput_notifica.Handler.Start.{Callback, Consumer}
use high_throughput_notifica.Handler.Started.{Stand, wiring}

module _ {B : Broker} (T : Topology B Callback) (h : Consumer B) (stand : Stand T h wiring) where
  abbrev pattern_of : SourceService → String
  pattern_of s = text_append (source_name s) ".*"
