-- ===== src/OutQueue/Tests.antt =====
-- The theorems on the output queue at concrete queues.
use ewb_server.Base.{ℕ, ◌+◌, ◌≤◌, ◌≡◌, List, [], ◌∷◌, ◌++◌, none, some, false, arith, pos}
use ewb_server.Region.{SnapRec, RegionCacheTag, CachedRegion}
use ewb_server.OutQueue.{RegionJob, Limits, new, OutQueue, push_hi}
use ewb_server.OutQueue.Writer.{take_item}
use ewb_server.OutQueue.Accounting.{IsValid, new-IsValid}
use ewb_server.OutQueue.Order.{stream, option_atoms, take_item-stream}
use ewb_server.OutQueue.Budget.{IsPushed, push_hi-IsPushed}
use ewb_server.OutQueue.Runs.{
  Event, says, relays, answers, answers_cached, takes, gives_back, run, fresh, run-IsValid,
}
use ewb_server.OutQueue.Backlogs.{lo_bytes-bounded}

abbrev small : Limits
small = record { hi_max_bytes = 5; lo_max_bytes = 3; max_region_jobs = 2 }

abbrev tag : RegionCacheTag
tag = record {
  key = record { x0 = pos 0; x1 = pos 15; z0 = pos 0; z1 = pos 15; empty_frame = false };
  stamp = 0;
}

abbrev rec_at : ℕ → SnapRec
rec_at n = record { x = pos n; y = pos 0; z = pos 0; flag = pos 0; type = pos 2 }

abbrev two_frames : RegionJob
two_frames = record {
  recs = some (record { address = 1; items = rec_at 1 ∷ rec_at 2 ∷ rec_at 3 ∷ [] });
  cursor = 0;
  frame_records = 2;
  empty_frame = false;
  cacheable = false;
  cache_tag = tag;
}

abbrev reply : CachedRegion
reply = record {
  frames = record { line = 1 ∷ 2 ∷ []; records = 1 } ∷ [];
  bytes = 2;
  records = 1;
  stamp = 0;
}

abbrev calls : List Event
calls =
    says (1 ∷ 2 ∷ [])
    ∷ relays (7 ∷ 7 ∷ 7 ∷ 7 ∷ [])
    ∷ answers two_frames
    ∷ answers_cached (some reply)
    ∷ takes
    ∷ takes
    ∷ takes
    ∷ gives_back
    ∷ []

abbrev busy : OutQueue
busy = (run (fresh small) calls).queue

run-IsValid_example : IsValid busy
run-IsValid_example = run-IsValid small calls (omega arith)

take_item-stream_example :
    (stream busy ≡ option_atoms (take_item busy).0 ++ stream (take_item busy).1)
    × ((take_item busy).0 ≡ none → stream busy ≡ [])
take_item-stream_example = take_item-stream busy (run-IsValid small calls (omega arith))

push_hi-IsPushed_example :
    IsPushed (new small) (1 ∷ []) (push_hi (new small) (1 ∷ [])).0 (push_hi (new small) (1 ∷ [])).1
push_hi-IsPushed_example = push_hi-IsPushed (new small) (1 ∷ []) (new-IsValid small) (λ e. cc)

lo_bytes-bounded_example : busy.lo_bytes ≤ 3 + 4
lo_bytes-bounded_example = lo_bytes-bounded 4 small calls (omega arith) (omega arith)
