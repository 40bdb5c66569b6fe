-- ===== src/Daemon/Jobs/Silence.antt =====
-- scanbus-daemon/src/jobs.rs: the scans that no client sees.
use scanbus_service.Common.{◌≡◌, refl, Bool, true, false, ◌&&◌, none, List, [], ◌∷◌, Bytes}
use scanbus_service.Common.Result.{Result, ok, err}
use scanbus_service.Daemon.Jobs.{
  Item, Publication, Scan, Captured, Report, run, fetched_then, receive, after_page, counted,
  publish, published, finish,
}
use scanbus_service.Daemon.Jobs.Object.{Job1}

-- The stream begins with a page.
unfoldable pub begins : Result (List Item) Bytes → Bool
begins (ok (Item.page taken ∷ items)) = true
begins (ok (Item.failed message ∷ items)) = false
begins (ok []) = false
begins (err message) = false

-- The object server takes the object.
unfoldable pub takes : Publication → Bool
takes Publication.refused = false
takes Publication.vanished = true
takes Publication.served = true

abbrev nothing : Report
nothing = record { job = none; object = none; signals = [] }

unpublished :
    (p : Publication) (scan : Scan) (job : Job1) (dropped : Bool) (rest : Captured)
    → takes p ≡ false
    → finish scan (after_page dropped (published p job).0 (published p job).1 rest) ≡ nothing
unfolding published after_page finish takes
unpublished Publication.refused scan job dropped rest h = refl
unpublished Publication.vanished scan job dropped rest h = absurd (cc)
unpublished Publication.served scan job dropped rest h = absurd (cc)

fetched_then_silent :
    (scan : Scan) (fetched : Result (List Item) Bytes)
    → begins fetched && takes scan.publication ≡ false
    → fetched_then scan fetched ≡ nothing
unfolding fetched_then receive finish begins counted publish
fetched_then_silent scan (err message) h = refl
fetched_then_silent scan (ok []) h = refl
fetched_then_silent scan (ok (Item.failed message ∷ items)) h = refl
fetched_then_silent scan (ok (Item.page taken ∷ items)) h =
    unpublished scan.publication scan _ _ _ h

-- A scan whose fetch fails, whose stream does not begin with a page, or whose object the bus does not
-- take returns no job id, leaves no object, and sends nothing.
pub run_silent :
    (scan : Scan)
    → begins scan.fetched && takes scan.publication ≡ false
    → run scan ≡ record { job = none; object = none; signals = [] }
unfolding run
run_silent scan h = fetched_then_silent scan scan.fetched h
