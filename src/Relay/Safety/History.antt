-- ===== src/Relay/Safety/History.antt =====
-- The table of services/rendezvous-relay/internal/relay/store.go over time: any number of
-- invocations run at once, each handles one event, and the database carries out their requests one
-- after the other. A request is one that some run of `Handle` sends, whatever answers the run had.
use remote_davinci.Base.{ℕ, ◌≡◌, true, String, Option, none, List, Memᴰ}
use remote_davinci.Relay.Table.{
  Kind, connection_kind, endpoint_kind, pair_kind, locator_kind, join_kind, link_kind, session_kind,
  rate_kind, Row, Write, write, Tables, RowChange, same, written, Database,
}
use remote_davinci.Relay.Safety.Rows.{RowOk, RowStep, RowStep-refl}
use remote_davinci.Relay.Safety.Writes.{SoundAt, SoundWrite}
use remote_davinci.Relay.Safety.Calls.{SoundWrites, no_writes, more_writes}
use remote_davinci.Relay.Safety.Requests.{Sends, Sends-SoundWrites}
use remote_davinci.Relay.Handler.Event.{Wire, WebSocketEvent}
use remote_davinci.Relay.Handler.Routes.{handle}
use remote_davinci.Relay.Handler.Routes.Soundness.{handle-Sound}
use remote_davinci.Relay.Safety.Steps.{lasting, RowStep-trans}

-- The change of the table by one request of one invocation of `Handle`, with any depth of nested cleanups, any parsers and
-- digests, any limit `pairActivationsPerSourceHour` and any event.
pub data Change (db : Database) (t t' : Tables) : Type 0 where
  change :
      (fuel : ℕ) (wire : Wire) (limit : ℕ) (event : WebSocketEvent) (ws : List Write)
      → Sends (handle fuel wire limit event) ws
      → db.Commits t ws t'
      → Change db t t'

pub data History (db : Database) : Tables → Tables → Type 0 where
  start : (t : Tables) → History db t t
  extend : (t u v : Tables) → History db t u → Change db u v → History db t v

-- Every item is as the code expects it.
abbrev pub WellFormed : Tables → Type 0
WellFormed t = (k : Kind) (id : String) → RowOk k (t k id)

-- The table of a new deployment.
abbrev pub empty_tables : Tables
empty_tables k id = none

SoundWrites-mem : (ws : List Write) (w : Write) → SoundWrites ws → Memᴰ w ws → SoundWrite w
SoundWrites-mem _ w no_writes m = elim m [ ]
SoundWrites-mem _ w (more_writes h hs) (Memᴰ.head e) = rw e h
SoundWrites-mem _ w (more_writes h hs) (Memᴰ.tail m) = SoundWrites-mem _ w hs m

RowChange-SoundAt :
    (ws : List Write) (k : Kind) (id : String) (o n : Option (Row k))
    → SoundWrites ws
    → RowOk k o
    → RowChange ws k id o n
    → SoundAt k o n
RowChange-SoundAt ws k id o n hs h (same e) = rw e (h, RowStep-refl k o)
RowChange-SoundAt ws k id o n hs h (written c f m held e) =
    rw e (SoundWrites-mem ws (write k id c f) hs m o h held)

-- One request keeps an item well-formed and takes it an allowed step.
pub Change-SoundAt :
    (db : Database) (t t' : Tables) (k : Kind) (id : String)
    → RowOk k (t k id)
    → Change db t t'
    → SoundAt k (t k id) (t' k id)
Change-SoundAt db t t' k id h (change fuel wire limit event ws s c) =
    RowChange-SoundAt ws k id _ _ (Sends-SoundWrites _ ws s (handle-Sound fuel wire limit event).at)
      h (db.conditional t t' ws c k id)

-- Whatever runs, every item of a well-formed table stays well-formed: an endpoint with a session
-- has a connection, a revoked endpoint has neither nor a credential, a pair has the second side
-- and the commits that its status says, a revoked link has no session, and an active link or
-- session has no time of its end.
pub well_formed :
    (db : Database) (t t' : Tables)
    → WellFormed t
    → History db t t'
    → (k : Kind) (id : String) → RowOk k (t' k id)
well_formed db _ _ h (start t) k id = h k id
well_formed db _ _ h (extend t u v past r) k id =
    (Change-SoundAt db u v k id (well_formed db t u h past k id) r).0

-- Whatever runs, an item of a kind that is never deleted only changes as its steps allow.
pub History-RowStep :
    (db : Database) (t t' : Tables)
    → WellFormed t
    → History db t t'
    → (k : Kind) → lasting k ≡ true
    → (id : String) → RowStep k (t k id) (t' k id)
History-RowStep db _ _ h (start t) k l id = RowStep-refl k (t k id)
History-RowStep db _ _ h (extend t u v past r) k l id =
    RowStep-trans k l _ _ _ (History-RowStep db t u h past k l id)
      (Change-SoundAt db u v k id (well_formed db t u h past k id) r).1

pub empty_tables-WellFormed : WellFormed empty_tables
empty_tables-WellFormed connection_kind id = tt
empty_tables-WellFormed endpoint_kind id = tt
empty_tables-WellFormed pair_kind id = tt
empty_tables-WellFormed locator_kind id = tt
empty_tables-WellFormed join_kind id = tt
empty_tables-WellFormed link_kind id = tt
empty_tables-WellFormed session_kind id = tt
empty_tables-WellFormed rate_kind id = tt
