-- ===== src/Queue/Jobs.antt =====
-- The jobs of ledger/queue.py: a job is read from its check object and its events.
use Prim.Native.String.{◌++◌ as text_append, slice}
use lean_evolve.Prelude.{
  ℕ, String, Bool, true, false, not, ◌&&◌, ◌||◌, Option, none, some, List, [], ◌∷◌, ◌++◌, mem,
  select, maybe, ltb, ◌==◌, Except, ok, err, ◌>>=◌, ◌>>◌, raise_if, raise_as, if◌then◌else◌,
}
use lean_evolve.Value.{Value, int, float, get}
use lean_evolve.Events.{Envelope, Event}
use lean_evolve.Store.Tables.{
  Ledger, ObjectRecord, ConnectionRecord, fields_of, object, objects, connections, events_of,
}
use lean_evolve.Derive.{state_of}
use lean_evolve.Artifacts.Files.{Bytes, Codec}
use lean_evolve.Artifacts.Entered.{text_of}
use lean_evolve.Queue.Exec.{
  QueueError, unknown_check, derived, no_property, no_number, DurableCheckQueue,
}

abbrev pub checker_identity : String
checker_identity = "warm-lean-server-v2-direction-safe-isolated"

-- `CheckJob`; the budget by the bits of the float
pub record CheckJob : Type 0 where
  pub id : String
  pub checkpoint_key : String
  pub environment_identity : String
  pub input_sha256 : String
  pub source_artifact_id : String
  pub request_class : String
  pub priority : Bool × ℕ
  pub budget_seconds : ℕ
  pub state : String
  pub created_event_id : ℕ

pub record Scope : Type 0 where
  pub campaign_id : Option String
  pub epoch_id : Option String
  pub turn_id : Option String

abbrev pub no_scope : Scope
no_scope = record { campaign_id = none; epoch_id = none; turn_id = none }

abbrev pub in_scope : String → String → Scope → Envelope
in_scope actor_class actor_id scope = record {
  actor_class = actor_class;
  actor_id = actor_id;
  campaign_id = scope.campaign_id;
  epoch_id = scope.epoch_id;
  turn_id = scope.turn_id;
}

-- `b"\0".join(parts)`
unfoldable pub join_bytes : List Bytes → Bytes
join_bytes [] = []
join_bytes (x ∷ []) = x
join_bytes (x ∷ y ∷ rest) = x ++ 0 ∷ join_bytes (y ∷ rest)

-- `_request_digest`
unfoldable pub request_digest : Codec → Bytes → String → String → String → String
unfolding join_bytes
request_digest codec source checkpoint_key environment_identity request_class = codec.digest (
    join_bytes (
      codec.encode checker_identity
      ∷ source
      ∷ codec.encode checkpoint_key
      ∷ codec.encode environment_identity
      ∷ codec.encode request_class
      ∷ []))

-- `f"check:{digest[:24]}"`
abbrev pub job_id_of : String → String
job_id_of digest = text_append "check:" (slice digest 0 24)

abbrev scope_of : List Event → Scope
scope_of [] = no_scope
scope_of (e ∷ es) = record {
  campaign_id = e.campaign_id;
  epoch_id = e.epoch_id;
  turn_id = e.turn_id;
}

-- The text of an optional scope, if it is one that `if not scope_id` lets pass.
abbrev scope_ids : Scope → List String
scope_ids scope = present scope.turn_id ++ (present scope.epoch_id ++ present scope.campaign_id)
  where
    present : Option String → List String
    present none = []
    present (some id) = if id == "" then [] else id ∷ []

-- `dict.fromkeys(…)`: each text once, where it stands first
unfoldable pub once : List String → List String → List String
once seen [] = []
once seen (x ∷ xs) = if mem x seen then once seen xs else x ∷ once (x ∷ seen) xs

-- `int(value)` and `float(value)`
abbrev to_int : Codec → Value → Option (Bool × ℕ)
to_int codec (int s n) = some (s, n)
to_int codec v = codec.to_int v

abbrev to_float : Codec → Value → Option ℕ
to_float codec (float bits) = some bits
to_float codec v = codec.to_float v

abbrev or_error : {A : Type 0} → QueueError → Option A → Except QueueError A
or_error e none = err e
or_error e (some a) = ok a

-- `operational or "queued"`
abbrev pub or_queued : Option String → String
or_queued none = "queued"
or_queued (some s) = if s == "" then "queued" else s

module _ (q : DurableCheckQueue) where
  -- `_scope`
  unfoldable pub scope : String → Ledger → Scope
  scope job_id l =
      scope_of (select (λ e. e.action == "check_submitted") (events_of q.host l (some job_id) none))

  -- The targets of a scope that are formal claims, by its edges.
  unfoldable pub claims_of : Ledger → List ConnectionRecord → List String
  claims_of l [] = []
  claims_of l (c ∷ cs) =
      maybe [] (λ o. if o.kind == "formal_claim" then o.id ∷ [] else []) (object q.host l c.to_id)
      ++ claims_of l cs

  unfoldable pub goals_of : Ledger → List String → List String
  unfolding claims_of
  goals_of l [] = []
  goals_of l (id ∷ ids) =
      claims_of l (connections q.host l (some id) none (some "targets") false) ++ goals_of l ids

  -- `_focus_goals`
  unfoldable pub focus_goals : String → Ledger → List String
  unfolding scope goals_of once
  focus_goals job_id l = once [] (goals_of l (scope_ids (scope job_id l)))

  abbrev property : String → ObjectRecord → Except QueueError Value
  property name o = or_error (no_property name) (get name (fields_of o.properties))

  abbrev pub text_property : String → ObjectRecord → Except QueueError String
  text_property name o = property name o >>= λ v. ok (text_of q.codec v)

  -- The priority 0 and the 30 seconds of a check without these properties.
  abbrev pub priority_of : ObjectRecord → Except QueueError (Bool × ℕ)
  priority_of o =
      maybe (ok (false, 0)) (λ v. or_error (no_number "priority") (to_int q.codec v))
        (get "priority" (fields_of o.properties))

  abbrev pub thirty : ℕ
  thirty = 4629137466983448576

  abbrev pub budget_of : ObjectRecord → Except QueueError ℕ
  budget_of o =
      maybe (ok thirty) (λ v. or_error (no_number "budget_seconds") (to_float q.codec v))
        (get "budget_seconds" (fields_of o.properties))

  -- `CheckJob(…)` of a check object
  unfoldable pub job_of : Ledger → ObjectRecord → Except QueueError CheckJob
  job_of l o = do
    checkpoint_key ← text_property "checkpoint_key" o
    environment_identity ← text_property "environment_identity" o
    input_sha256 ← text_property "input_sha256" o
    source_artifact_id ← text_property "source_artifact_id" o
    request_class ← text_property "request_class" o
    priority ← priority_of o
    budget_seconds ← budget_of o
    state ← raise_as derived (state_of q.host l o.id none)
    ok (record {
      id = o.id;
      checkpoint_key = checkpoint_key;
      environment_identity = environment_identity;
      input_sha256 = input_sha256;
      source_artifact_id = source_artifact_id;
      request_class = request_class;
      priority = priority;
      budget_seconds = budget_seconds;
      state = or_queued state.operational;
      created_event_id = o.created_event_id;
    })

  -- `_from_record`
  unfoldable pub from_record : String → Ledger → Except QueueError CheckJob
  unfolding job_of
  from_record object_id l =
      maybe (err (unknown_check object_id))
        (λ o. raise_if (not (o.kind == "check")) (unknown_check object_id) >> job_of l o)
        (object q.host l object_id)

  abbrev pub keyed : Option String → CheckJob → Bool
  keyed none job = true
  keyed (some key) job = job.checkpoint_key == key

  -- The loop of `pending` over the check objects.
  unfoldable pub queued_jobs :
      Option String → Ledger → List ObjectRecord → Except QueueError (List CheckJob)
  unfolding from_record
  queued_jobs key l [] = ok []
  queued_jobs key l (o ∷ os) = do
    job ← from_record o.id l
    rest ← queued_jobs key l os
    ok (if job.state == "queued" && keyed key job then job ∷ rest else rest)

-- Whether a sort key `(-priority, created_event_id)` comes strictly before another.
abbrev pub int_less : Bool × ℕ → Bool × ℕ → Bool
int_less (true, a) (true, b) = ltb b a
int_less (true, a) (false, b) = ltb 0 a || ltb 0 b
int_less (false, a) (true, b) = false
int_less (false, a) (false, b) = ltb a b

abbrev pub precedes : CheckJob → CheckJob → Bool
precedes x y =
    int_less y.priority x.priority
    || (not (int_less x.priority y.priority) && ltb x.created_event_id y.created_event_id)

-- `sorted(jobs, key=…)`, which keeps the order of equal keys
unfoldable pub insert_job : CheckJob → List CheckJob → List CheckJob
insert_job x [] = x ∷ []
insert_job x (y ∷ ys) = if precedes y x then y ∷ insert_job x ys else x ∷ y ∷ ys

unfoldable pub sort_jobs : List CheckJob → List CheckJob
unfolding insert_job
sort_jobs [] = []
sort_jobs (x ∷ xs) = insert_job x (sort_jobs xs)

module _ (q : DurableCheckQueue) where
  -- `pending`
  unfoldable pub pending : Option String → Ledger → Except QueueError (List CheckJob)
  unfolding queued_jobs sort_jobs
  pending checkpoint_key l = do
    jobs ← queued_jobs q checkpoint_key l (objects q.host l (some "check"))
    ok (sort_jobs jobs)
