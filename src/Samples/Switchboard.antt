-- ===== src/Samples/Switchboard.antt =====
-- A broker that keeps its facts and its publications in lists.
use mathlib.Core.List.{Mem, mem-cons_of_mem, mem-cons_self}
use high_throughput_notifica.Prelude.{refl, some, none, false, List, [], ◌∷◌, ◌++◌}
use high_throughput_notifica.Exec.{Exec, ok}
use high_throughput_notifica.Services.{
  Broker, Publication, Topology, Fact, has_exchange, has_queue, bound, consumed,
}
use high_throughput_notifica.Handler.Start.{Callback, Consumer}

pub record Board : Type 0 where
  pub facts : List (Fact Callback)
  pub log : List Publication

pub note : Fact Callback → Exec Board (Unit {0})
note f s = (ok tt, record s { facts = f ∷ s.facts })

unfoldable pub board : Broker
unfolding note
board = record {
  State = Board;
  Connection = Unit {0};
  Channel = Unit {0};
  published = λ s. s.log;
  connect = λ s. (ok tt, s);
  open_channel = λ c s. (ok tt, s);
  declare_queue = λ c q d. note (has_queue q d);
  declare_exchange = λ c x t. note (has_exchange x t);
  bind_queue = λ c q x. note (bound q x none);
  publish = λ c p s. (ok tt, record s { log = s.log ++ p ∷ [] });
  close = λ c s. (ok tt, s);
  publish_ok = λ c p s h. refl;
  connect_keeps = λ s. refl;
  open_channel_keeps = λ c s. refl;
  declare_queue_keeps = λ c q d s. refl;
  declare_exchange_keeps = λ c x t s. refl;
  bind_queue_keeps = λ c q x s. refl;
  close_keeps = λ c s. refl;
}

unfoldable pub wired : Topology board Callback
unfolding board note
wired = record {
  Stands = λ s f. Mem f s.facts;
  set_qos = λ c k s. (ok tt, s);
  bind = λ c q x k. note (bound q x (some k));
  consume = λ c q f. note (consumed q f);
  exchange_ok = λ c x t s h. mem-cons_self;
  queue_ok = λ c q d s h. mem-cons_self;
  bind_queue_ok = λ c q x s h. mem-cons_self;
  bind_ok = λ c q x k s h. mem-cons_self;
  consume_ok = λ c q f s h. mem-cons_self;
  exchange_keeps = λ c x t s a m. mem-cons_of_mem _ m;
  queue_keeps = λ c q d s a m. mem-cons_of_mem _ m;
  bind_queue_keeps = λ c q x s a m. mem-cons_of_mem _ m;
  bind_keeps = λ c q x k s a m. mem-cons_of_mem _ m;
  consume_keeps = λ c q f s a m. mem-cons_of_mem _ m;
}

-- A handler before its start.
unfoldable pub resting : Consumer board
unfolding board
resting = record {
  connection = none;
  channel = none;
  running = false;
  broker = record { facts = []; log = [] };
}
