-- ===== src/Tests/Jobs.antt =====
-- A scan of two pages for the image profile, and one that the bus does not take.
use scanbus_service.Common.{◌≡◌, ap, ◌++◌, refl, true, [], ◌∷◌, none, some, codes, arith}
use scanbus_service.Common.Result.{ok}
use scanbus_service.Core.Profile.{ProfileKind}
use scanbus_service.Core.Value.{Value, Dict}
use scanbus_service.Daemon.Jobs.{JobTrigger, Publication, Item, Processed, Scan, run, first_job}
use scanbus_service.Daemon.Jobs.Course.{
  closing, counts, pages_taken, one_more, ended, outcome, run_course,
}
use scanbus_service.Daemon.Jobs.Mirror.{View, replay, view, run-replay}
use scanbus_service.Daemon.Jobs.Object.{Job1, Signal}

abbrev saved : Dict
saved = (codes "paths", Value.str (codes "/home/scans/1.jpg")) ∷ []

abbrev two_pages : Scan
two_pages = record {
  scanner = codes "/org/scanbus/scanner/mock";
  job_id = 1;
  trigger = JobTrigger.button 2;
  profile = some ProfileKind.image;
  fetched = ok (Item.page true ∷ Item.page true ∷ []);
  publication = Publication.served;
  processed = Processed.success saved;
}

abbrev unserved : Scan
unserved = record two_pages { publication = Publication.refused }

abbrev last_object : Job1
last_object =
    ended (first_job two_pages 2) (outcome (some ProfileKind.image) (Processed.success saved) none)

abbrev unknown : View
unknown = record { state = []; error = []; page_count = 0; result = [] }

run_course_example : run two_pages ≡ record {
  job = some 1;
  object = some last_object;
  signals =
      Signal.exported (first_job two_pages 1) ∷ counts 1 1
      ++ (closing (some ProfileKind.image) (Processed.success saved) none ++ (Signal.removed ∷ []));
}
unfolding pages_taken one_more
run_course_example =
    run_course two_pages (Item.page true ∷ Item.page true ∷ []) 1 none refl refl refl (omega arith)

two_pages_object : (run two_pages).object ≡ some last_object
unfolding pages_taken one_more
two_pages_object =
    ap (λ r. r.object)
      (run_course two_pages (Item.page true ∷ Item.page true ∷ []) 1 none refl refl refl
        (omega arith))

run-replay_example : replay (run two_pages).signals unknown ≡ view last_object
run-replay_example = run-replay two_pages unknown last_object two_pages_object
