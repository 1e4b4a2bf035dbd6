-- ===== src/Client/Loop/Budget.antt =====
-- What the client sends: how many datagrams of each kind, and that it counts their bytes.
pub mod Counters
pub mod Sends
use akari_proxy.Prelude.{◌-◌, ◌≡◌, List, Bytes, nat_eq, text_key}
use akari_proxy.Exceptions.{ok}
use akari_proxy.Client.Config.{ClientConfig}
use akari_proxy.Client.Exchange.{Exchange, Request, Event, Step, again, done}
use akari_proxy.Client.Loop.{step, run}
use akari_proxy.Client.Loop.Budget.Counters.{Accounted, AccountedStep}

module _ (config : ClientConfig) (request : Request) (hmac_sha256 : Bytes → Bytes → Bytes) where
  -- How the loop ends after some events: in its last turn, on the exchange that the turns before left.
  abbrev pub AccountedRun : Exchange → Step → Type 0
  AccountedRun first (again st) = Accounted config st
  AccountedRun first (done outcome) =
      (events : List Event) × (event : Event) × (last : Exchange) × (run hmac_sha256 config request
          events first
        ≡ ok (again last))
      × (step hmac_sha256 config request event last ≡ ok (done outcome))
      × AccountedStep config request last.sent (done outcome)
