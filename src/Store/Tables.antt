-- ===== src/Store/Tables.antt =====
-- The tables of ledger/schema.py with the constraints that a write can meet, and the reads of
-- ledger/store.py `Ledger`. A table is the list of its rows in the order in which the reads return
-- them, except `events`, which stands newest first. Rows are never deleted.
use Prim.Native.String.{compare}
use text.Mathlib.Text.{is_lt}
use lean_evolve.Prelude.{
  ℕ, suc, String, Bool, true, false, not, ◌&&◌, ◌||◌, Option, none, some, List, [], ◌∷◌, map,
  reverse, ◌==◌, ltb, leb, nat_eq, is_some, maybe, find, select, any, if◌then◌else◌,
}
use lean_evolve.Value.{Value, dict, Fields, empty, Host}
use lean_evolve.Events.{Event, EventRow, event_from_row}

pub record ObjectRow : Type 0 where
  pub id : String
  pub kind : String
  pub canonical_name : String
  pub content_format : String
  pub content : String
  pub properties_json : String
  pub created_event_id : ℕ

pub record ConnectionRow : Type 0 where
  pub id : ℕ
  pub from_id : String
  pub relation : String
  pub to_id : String
  pub properties_json : String
  pub created_event_id : ℕ
  pub retracted_event_id : Option ℕ

pub record LocationRow : Type 0 where
  pub object_id : String
  pub location : String
  pub state : String
  pub verified_at : Option String
  pub created_event_id : ℕ

pub record AliasRow : Type 0 where
  pub alias : String
  pub object_id : String
  pub created_event_id : ℕ

pub record Ledger : Type 0 where
  pub events : List EventRow
  pub objects : List ObjectRow
  pub aliases : List AliasRow
  pub connections : List ConnectionRow
  pub locations : List LocationRow

abbrev pub empty_ledger : Ledger
empty_ledger = record { events = []; objects = []; aliases = []; connections = []; locations = [] }

pub record ObjectRecord : Type 0 where
  pub id : String
  pub kind : String
  pub canonical_name : String
  pub content_format : String
  pub content : String
  pub properties : Value
  pub created_event_id : ℕ

pub record ConnectionRecord : Type 0 where
  pub id : ℕ
  pub from_id : String
  pub relation : String
  pub to_id : String
  pub properties : Value
  pub created_event_id : ℕ
  pub retracted_event_id : Option ℕ

-- `ConnectionRecord.is_active`
abbrev pub is_active : ConnectionRecord → Bool
is_active c = not (is_some c.retracted_event_id)

-- `dict(value)` of a value that was written from a `dict`
abbrev pub fields_of : Value → Fields
fields_of (dict d) = d
fields_of v = empty

abbrev pub text_is : Option String → String → Bool
text_is none k = false
text_is (some t) k = t == k

-- Whether an optional filter lets a text pass.
abbrev pub passes : Option String → String → Bool
passes none t = true
passes (some k) t = t == k

-- The row is about the subject, and not after the event `until`.
abbrev pub in_query : Option String → Option ℕ → EventRow → Bool
in_query subject_id until r = passes subject_id r.subject_id && maybe true (λ n. leb r.id n) until

-- The filters of `Ledger.connections`.
abbrev pub in_edges : Option String → Option String → Option String → Bool → ConnectionRow → Bool
in_edges from_id to_id relation include_retracted c =
    passes from_id c.from_id
    && (passes to_id c.to_id
        && (passes relation c.relation
            && (include_retracted || not (is_some c.retracted_event_id))))

-- The constraints of `events`: PRIMARY KEY (id), UNIQUE (idempotency_key), UNIQUE (event_hash).
abbrev same_key : Option String → Option String → Bool
same_key none k = false
same_key (some j) none = false
same_key (some j) (some k) = j == k

unfoldable pub clashes : EventRow → EventRow → Bool
clashes r x =
    nat_eq r.id x.id
    || (same_key r.idempotency_key x.idempotency_key || (r.event_hash == x.event_hash))

-- The row at its place by descending id.
unfoldable pub place_event : EventRow → List EventRow → List EventRow
place_event r [] = r ∷ []
place_event r (x ∷ xs) = if ltb r.id x.id then x ∷ place_event r xs else r ∷ x ∷ xs

-- The row at its place by id, as SQLite compares texts.
unfoldable pub place_object : ObjectRow → List ObjectRow → List ObjectRow
place_object r [] = r ∷ []
place_object r (x ∷ xs) = if is_lt (compare r.id x.id) then r ∷ x ∷ xs else x ∷ place_object r xs

unfoldable pub place_location : LocationRow → List LocationRow → List LocationRow
place_location r [] = r ∷ []
place_location r (x ∷ xs) =
    if is_lt (compare r.location x.location) then r ∷ x ∷ xs else x ∷ place_location r xs

-- The next INTEGER PRIMARY KEY of `connections`: one above the last.
unfoldable pub next_connection_id : List ConnectionRow → ℕ
next_connection_id [] = 1
next_connection_id (c ∷ []) = suc c.id
next_connection_id (c ∷ d ∷ rest) = next_connection_id (d ∷ rest)

abbrev pub is_edge : String → String → String → ConnectionRow → Bool
is_edge from_id relation to_id c =
    c.from_id == from_id && (c.relation == relation && c.to_id == to_id)

abbrev pub is_place : String → String → LocationRow → Bool
is_place object_id location l = l.object_id == object_id && l.location == location

-- UPDATE … WHERE test
unfoldable pub update {ℓ} : {A : Type ℓ} → (A → Bool) → (A → A) → List A → List A
update test f [] = []
update test f (x ∷ xs) = (if test x then f x else x) ∷ update test f xs

module _ (host : Host) where
  -- `_object_from_row`
  unfoldable pub object_from_row : ObjectRow → ObjectRecord
  object_from_row row = record {
    id = row.id;
    kind = row.kind;
    canonical_name = row.canonical_name;
    content_format = row.content_format;
    content = row.content;
    properties = host.loads row.properties_json;
    created_event_id = row.created_event_id;
  }

  -- `_connection_from_row`
  unfoldable pub connection_from_row : ConnectionRow → ConnectionRecord
  connection_from_row row = record {
    id = row.id;
    from_id = row.from_id;
    relation = row.relation;
    to_id = row.to_id;
    properties = host.loads row.properties_json;
    created_event_id = row.created_event_id;
    retracted_event_id = row.retracted_event_id;
  }

-- `Ledger._object_exists`
unfoldable pub object_exists : Ledger → String → Bool
object_exists l object_id = any (λ o. o.id == object_id) l.objects

module _ (host : Host) where
  -- `Ledger.object`
  unfoldable pub object : Ledger → String → Option ObjectRecord
  object l object_id =
      maybe none (λ o. some (object_from_row host o)) (find (λ o. o.id == object_id) l.objects)

  -- `Ledger.objects`
  unfoldable pub objects : Ledger → Option String → List ObjectRecord
  objects l kind = map (object_from_row host) (select (λ o. passes kind o.kind) l.objects)

  -- `Ledger.connection`
  unfoldable pub connection : Ledger → String → String → String → Option ConnectionRecord
  connection l from_id relation to_id =
      maybe none (λ c. some (connection_from_row host c))
        (find (is_edge from_id relation to_id) l.connections)

  -- `Ledger.connections`
  unfoldable pub connections :
      Ledger → Option String → Option String → Option String → Bool → List ConnectionRecord
  connections l from_id to_id relation include_retracted =
      map (connection_from_row host)
        (select (in_edges from_id to_id relation include_retracted) l.connections)

  -- `Ledger.head`
  unfoldable pub head : Ledger → Option Event
  head l = elim l.events [ [] ↦ none | row ∷ rows ↦ some (event_from_row host row) ]

  -- `Ledger._event_by_key`
  unfoldable pub event_by_key : Ledger → String → Option Event
  event_by_key l key =
      maybe none (λ r. some (event_from_row host r))
        (find (λ r. text_is r.idempotency_key key) l.events)

  -- `Ledger.events(subject_id=…, until=…)`, oldest first
  unfoldable pub events_of : Ledger → Option String → Option ℕ → List Event
  events_of l subject_id until =
      reverse (map (event_from_row host) (select (in_query subject_id until) l.events))

-- `Ledger.resolve`
unfoldable pub resolve : Ledger → String → Option String
unfolding object_exists
resolve l identifier =
    if object_exists l identifier
    then some identifier
    else maybe none (λ a. some a.object_id) (find (λ a. a.alias == identifier) l.aliases)
