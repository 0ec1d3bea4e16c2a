-- ===== src/Pgx/Cache/Watched.antt =====
-- pkg/pgx/schema/schema.go: what a reader of the watch channel gets to see.
use pigo.Base.{◌≡◌, refl, ◌∙◌, Option, none, some, List, [], ◌∷◌, arith}
use pigo.Base.Bytes.{Bytes}
use pigo.Base.Maps.{StringMap}
use pigo.Pgx.Schema.{Table}
use pigo.Pgx.Cache.{Catalog, Cache, new_cache, reload, notified, send, take_snapshot}

-- What the cache's goroutine and its reader do, in any order. The goroutine takes up a notification
-- only when no send of its own waits.
pub data Steps : Cache → Cache → Type 0 where
  stop : (c : Cache) → Steps c c
  notify :
      (catalog : Catalog) (payload : Bytes) (c d : Cache)
      → c.sending ≡ none
      → Steps (notified catalog payload c) d
      → Steps c d
  sends : (c d : Cache) → Steps (send c) d → Steps c d
  takes : (c d : Cache) → Steps (take_snapshot c) d → Steps c d

-- the last that the reader has taken, or no tables
abbrev pub last_taken : List (StringMap Table) → StringMap Table
last_taken [] = []
last_taken (t ∷ ts) = t

abbrev pub or_else : Option (StringMap Table) → StringMap Table → StringMap Table
or_else none t = t
or_else (some s) t = s

-- the last snapshot that is on its way or has arrived
abbrev pub newest : Cache → StringMap Table
newest c = or_else c.sending (or_else c.watch (last_taken c.taken))

notified-newest :
    (catalog : Catalog) (payload : Bytes) (c : Cache)
    → newest c ≡ c.tables
    → newest (notified catalog payload c) ≡ (notified catalog payload c).tables
unfolding notified reload
notified-newest catalog payload c h = ground (arith, h)

send-newest : (c : Cache) → newest c ≡ c.tables → newest (send c) ≡ (send c).tables
unfolding send
send-newest c h = ground (arith, h)

take_snapshot-newest :
    (c : Cache) → newest c ≡ c.tables → newest (take_snapshot c) ≡ (take_snapshot c).tables
unfolding take_snapshot
take_snapshot-newest c h = ground (arith, h)

Steps-newest : (c d : Cache) → Steps c d → newest c ≡ c.tables → newest d ≡ d.tables
Steps-newest c d (stop e) h = h
Steps-newest c d (notify catalog payload e f idle s) h =
    Steps-newest (notified catalog payload e) f s (notified-newest catalog payload e h)
Steps-newest c d (sends e f s) h = Steps-newest (send e) f s (send-newest e h)
Steps-newest c d (takes e f s) h = Steps-newest (take_snapshot e) f s (take_snapshot-newest e h)

abbrev pub drained : Cache → Cache
drained c = take_snapshot (send (take_snapshot (send c)))

drained-last_taken : (c : Cache) → last_taken (drained c).taken ≡ newest c
unfolding send take_snapshot
drained-last_taken c = ground arith

-- After any steps of a new cache, a reader that takes what the channel has, while a send that waits
-- goes on, has after two reads at most the tables that the cache has.
pub reader_catches_up : (c : Cache) → Steps new_cache c → last_taken (drained c).taken ≡ c.tables
reader_catches_up c s = drained-last_taken c ∙ Steps-newest new_cache c s refl
