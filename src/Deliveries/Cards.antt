-- ===== src/Deliveries/Cards.antt =====
-- `ensure` of `PersonalizedDeliveryRepository` (freelancer_bot/persistence/deliveries.py): the
-- delivery of a card to a user, with the durable job that sends it.
use footjob.Base.{Bool, List, Option, Result, Str, [], any, codes, err, false, find, guard}
use footjob.Base.{if◌then◌else◌, integrity_error, ltb, none, ok, persistence_conflict, select}
use footjob.Base.{some, sorted, str_eq, true, value_error, ℕ, ◌&&◌, ◌++◌, ◌==◌, ◌>>=◌, ◌>>◌}
use footjob.Base.{◌||◌, ◌∷◌}
use footjob.Jobs
use footjob.Jobs.{Table}
use footjob.Deliveries.Row.{DeliveryStatus, Delivery, is_chat_id, checks}
use footjob.Deliveries.{Store, MatchTrace, User, LeadCard, has_key}

-- `_telegram_chat_id`: a positive number of at most 20 digits that `str` shows as it stands.
unfoldable pub telegram_chat_id : User → Result Str
telegram_chat_id user =
    guard (str_eq user.platform (codes "telegram")) value_error
    >> (guard (is_chat_id user.external_user_id) value_error >> ok user.external_user_id)

abbrev pub delivery_schema_version : Str
delivery_schema_version = codes "personalized-delivery.v1"

unfoldable pub logical_identity : MatchTrace → LeadCard → Delivery → Bool
logical_identity match card d =
    d.opportunity_id == match.opportunity_id
    && d.search_profile_id == match.search_profile_id
    && d.profile_revision == match.profile_revision
    && str_eq d.schema_version delivery_schema_version
    && str_eq d.renderer_schema_version card.schema_version

unfoldable pub created_before : Delivery → Delivery → Bool
created_before d e =
    ltb d.created_at e.created_at || (d.created_at == e.created_at && ltb d.id e.id)

unfoldable pub first_of : List Delivery → Option Delivery
first_of [] = none
first_of (d ∷ ds) = some d

unfoldable pub get_by_logical_identity : MatchTrace → LeadCard → List Delivery → Option Delivery
unfolding sorted select
get_by_logical_identity match card ds =
    first_of (sorted created_before (select (logical_identity match card) ds))

unfoldable pub same_content : MatchTrace → User → LeadCard → Delivery → Bool
same_content match user card d =
    d.opportunity_id == match.opportunity_id
    && d.search_profile_id == match.search_profile_id
    && d.profile_revision == match.profile_revision
    && d.user_id == user.id
    && str_eq d.renderer_schema_version card.schema_version

unfoldable pub validate_existing : Delivery → MatchTrace → User → LeadCard → Result (Unit {0})
validate_existing d match user card = guard (same_content match user card d) persistence_conflict

-- The hexadecimal SHA-256 of the canonical JSON of the logical identity, by the renderer's version,
-- the opportunity, the profile and its revision.
abbrev pub Digest : Type 0
Digest = Str → ℕ → ℕ → ℕ → Str

unfoldable pub delivery_idempotency_key : Digest → MatchTrace → LeadCard → Str
delivery_idempotency_key digest match card =
    digest card.schema_version match.opportunity_id match.search_profile_id match.profile_revision

unfoldable pub new_delivery : ℕ → ℕ → Str → Str → ℕ → MatchTrace → User → LeadCard → ℕ → Delivery
new_delivery now id key chat_id job_id match user card rendered_at = record {
  id = id;
  idempotency_key = key;
  schema_version = delivery_schema_version;
  renderer_schema_version = card.schema_version;
  match_trace_id = match.id;
  match_run_id = match.run_id;
  opportunity_id = match.opportunity_id;
  search_profile_id = match.search_profile_id;
  profile_revision = match.profile_revision;
  user_id = user.id;
  recipient_platform = user.platform;
  recipient_external_user_id = chat_id;
  job_id = job_id;
  status = DeliveryStatus.queued;
  card_body_html = card.body_html;
  source_url = card.source_url;
  parse_mode = card.parse_mode;
  link_preview = card.link_preview;
  rendered_at = rendered_at;
  attempt_count = 0;
  last_attempt_at = none;
  failure_code = none;
  telegram_message_id = none;
  sent_at = none;
  created_at = now;
  updated_at = now;
}

-- The primary key and the unique keys that the insert does not skip on.
unfoldable pub clashes : Delivery → Delivery → Bool
clashes d e =
    e.id == d.id
    || e.job_id == d.job_id
    || (e.match_trace_id == d.match_trace_id
        && str_eq e.renderer_schema_version d.renderer_schema_version)

-- INSERT … ON CONFLICT ON CONSTRAINT uq_personalized_deliveries_idempotency_key DO NOTHING
unfoldable pub insert_delivery : Delivery → List Delivery → Result (List Delivery × Bool)
unfolding any
insert_delivery d ds =
    guard (checks d) integrity_error
    >> (if any (has_key d.idempotency_key) ds
        then ok (ds, false)
        else if any (clashes d) ds
        then err integrity_error
        else ok (ds ++ d ∷ [], true))

unfoldable pub validated :
    Option Delivery
    → MatchTrace
    → User
    → LeadCard
    → Bool
    → Store
    → Result (Store × (Delivery × Bool))
validated none match user card created s = err persistence_conflict
validated (some d) match user card created s =
    validate_existing d match user card >> ok (s, (d, created))

-- The insert of the delivery and the read by its key, after the job is enqueued.
unfoldable pub record_delivery :
    Delivery → MatchTrace → User → LeadCard → Table → Store → Result (Store × (Delivery × Bool))
unfolding find
record_delivery d match user card jobs s = insert_delivery d s.deliveries >>= (λ written.
    validated (find (has_key d.idempotency_key) written.0) match user card written.1
      (record { deliveries = written.0; jobs = jobs }))

abbrev pub delivery_job_type : Str
delivery_job_type = codes "telegram.personalized_delivery.v1"

unfoldable pub enqueue_delivery : ℕ → ℕ → ℕ → Str → Table → Result (Table × ℕ)
enqueue_delivery now delivery_id job_id key jobs =
    Jobs.enqueue now job_id 0 delivery_job_type key 3 (some delivery_id) jobs

-- `delivery_id` is the value of `uuid4()`, as is `job_id` in `enqueue`.
unfoldable pub create :
    Digest
    → ℕ
    → ℕ
    → ℕ
    → Str
    → MatchTrace
    → User
    → LeadCard
    → ℕ
    → Store
    → Result (Store × (Delivery × Bool))
create digest now delivery_id job_id chat_id match user card rendered_at s =
    let key = delivery_idempotency_key digest match card in
    enqueue_delivery now delivery_id job_id key s.jobs >>= (λ queue.
      record_delivery (new_delivery now delivery_id key chat_id queue.1 match user card rendered_at)
        match user card queue.0 s)

-- The card is of the match trace.
unfoldable pub belongs : MatchTrace → LeadCard → Bool
belongs match card =
    card.match_trace_id == match.id
    && card.opportunity_id == match.opportunity_id
    && card.search_profile_id == match.search_profile_id
    && card.profile_revision == match.profile_revision

unfoldable pub ensure_identity :
    Digest
    → ℕ
    → ℕ
    → ℕ
    → Str
    → MatchTrace
    → User
    → LeadCard
    → ℕ
    → Store
    → Option Delivery
    → Result (Store × (Delivery × Bool))
ensure_identity digest now delivery_id job_id chat_id match user card rendered_at s
      (some existing) =
    validated (some existing) match user card false s
ensure_identity digest now delivery_id job_id chat_id match user card rendered_at s none =
    create digest now delivery_id job_id chat_id match user card rendered_at s

unfoldable pub ensure :
    Digest
    → ℕ
    → ℕ
    → ℕ
    → MatchTrace
    → User
    → LeadCard
    → ℕ
    → Store
    → Result (Store × (Delivery × Bool))
ensure digest now delivery_id job_id match user card rendered_at s =
    telegram_chat_id user >>= (λ chat_id.
      guard (belongs match card) value_error
      >> ensure_identity digest now delivery_id job_id chat_id match user card rendered_at s
          (get_by_logical_identity match card s.deliveries))
