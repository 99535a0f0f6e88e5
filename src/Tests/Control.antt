-- ===== src/Tests/Control.antt =====
-- Runs of the idempotency store and of the telemetry recorder.
use ya_router.Common.{
  none, some, List, [], ◌∷◌, ◌≡◌, refl, false, true, lookup, put, remove, nat_key, text_key, ◌+◌,
  ◌%◌, ◌^◌,
}
use ya_router.Idempotency.{
  IdempotencyEntry, StoredResponse, new_idempotency_store, begin, complete, cleanup, evict_oldest,
}
use ya_router.Idempotency.Steps.{Step, arrives, finishes, Server, run, step}
use ya_router.Idempotency.Once.{Goes, Waits, Answers, new_server, runs_once, response_kept}
use ya_router.Telemetry.{Outcome, invalid_request}
use ya_router.Telemetry
use ya_router.Telemetry.Calls.{Call, begins, marks, counts, new_recorder}
use ya_router.Telemetry.Open.{open_on}
use ya_router.Telemetry.Balance.{state_on, telemetry_balances}

abbrev accepted : StoredResponse
accepted = record { status = 202; header = []; body = 1 ∷ [] }

abbrev one_mutation : List Step
one_mutation = arrives (5 ∷ []) (6 ∷ []) 9 10 ∷ finishes 1 accepted ∷ []

abbrev answered_entry : IdempotencyEntry
answered_entry = record { digest = 6 ∷ []; created_at = 10; ready = true; response = some accepted }

abbrev answered_server : Server
answered_server = record {
  store = record (new_idempotency_store 4 60) {
    entries = (5 ∷ [], 1) ∷ [];
    heap = (1, answered_entry) ∷ [];
    next_entry = 1;
  };
  owners = [];
}

one_mutation_runs :
    run one_mutation (new_server (new_idempotency_store 4 60)) ≡ some answered_server
unfolding run step begin complete cleanup evict_oldest new_idempotency_store lookup put remove
one_mutation_runs = refl

answered_found : lookup 1 answered_server.store.heap ≡ some answered_entry
unfolding lookup
answered_found = refl

runs_once_example : Goes Waits (run one_mutation (new_server (new_idempotency_store 4 60)))
runs_once_example = runs_once 4 60 one_mutation

response_kept_example :
    Goes (Answers 1 answered_entry) (run (arrives (7 ∷ []) (8 ∷ []) 100 101 ∷ []) answered_server)
response_kept_example =
    response_kept 4 60 one_mutation (arrives (7 ∷ []) (8 ∷ []) 100 101 ∷ []) 1 answered_entry
      answered_server one_mutation_runs answered_found refl

abbrev failed_request : List Call
failed_request =
    begins (1 ∷ []) (2 ∷ []) 5
    ∷ marks 1 (record {
      success = false;
      error_category = invalid_request;
      produced_message = false;
      usage = none;
    })
    ∷ counts 1 9
    ∷ []

telemetry_balances_example :
    ((state_on (1 ∷ 0 ∷ 2 ∷ []) (Telemetry.Calls.run failed_request new_recorder)).in_flight
      ≡ open_on (1 ∷ 0 ∷ 2 ∷ []) (Telemetry.Calls.run failed_request new_recorder).handles)
    × ((state_on (1 ∷ 0 ∷ 2 ∷ []) (Telemetry.Calls.run failed_request new_recorder)).requests
        ≡ ((state_on (1 ∷ 0 ∷ 2 ∷ []) (Telemetry.Calls.run failed_request new_recorder)).successes
            + (state_on (1 ∷ 0 ∷ 2 ∷ []) (Telemetry.Calls.run failed_request new_recorder)).errors
            + (state_on
                (1 ∷ 0 ∷ 2 ∷ [])
                (Telemetry.Calls.run failed_request new_recorder)).in_flight)
          % 2 ^ 64)
telemetry_balances_example = telemetry_balances failed_request (1 ∷ 0 ∷ 2 ∷ [])
