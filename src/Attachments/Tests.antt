-- ===== src/Attachments/Tests.antt =====
-- Runs of the attachment operations, and the theorems at concrete inputs.
use voidchats_note2ee.Common.{
  ℕ, suc, ◌+◌, ◌*◌, ◌≤◌, ◌↔◌, ltb, if◌then◌else◌, length, times, ◌<◌, ◌≡◌, ◌≢◌, refl, true, false,
  ◌⊎◌, none, some, List, [], ◌∷◌, ◌++◌, arith, count, max,
}
use voidchats_note2ee.Attachments.Rows.{
  Attachment, Blob, Db, Config, ReservationIdentity, given, failed, staged, ready, row_of,
  is_reserved, already_used, attachment_forbidden, attachment_expired, attachment_not_found,
  attachment_duplicate, not_staged, seconds,
}
use voidchats_note2ee.Attachments.ObjectKeys.{
  Text, create_object_key, parse_object_key, object_prefix, parse-create,
}
use voidchats_note2ee.Attachments.Triggers.{has_blob_id, delete_where, insert_attachment}
use voidchats_note2ee.Attachments.References.{
  Texts, malformed, a_text, an_array, extract_protected_attachment_ids, parse_all,
  parse_attachment_descriptor,
}
use voidchats_note2ee.Attachments.References.Distinct.{AreIdsOf, extract_lem}
use voidchats_note2ee.Attachments.EditPolicy.{
  EditTexts, IdentityKind, Shown, text_value, a_list, preserved, immutable,
  preserve_message_edit_attachments, get_attachment_identity, parse_descriptor, invalid, legacy,
  protected, existing_of, identities, preserve_iff,
}
use voidchats_note2ee.Attachments.Reserving.{
  reserve_for_message, reserve_classified, reserve_free, reserved_new, reserve_row,
  reserved_already, classify_attachment_reservation, classify_rows, classify_used,
  assert_exact_rows,
}
use voidchats_note2ee.Attachments.Reserving.Exact.{Keyed}
use voidchats_note2ee.Attachments.Reserving.Effects.{
  WasTaken, reserve_for_message_lem, reserve_refuses_used,
}
use voidchats_note2ee.Attachments.Writing.{
  acknowledge_scylla_write, acknowledge_locked, update_exactly, acknowledge_row, commit_reservation,
  commit_row, release_reservation, delete_staged_attachment, delete_locked,
}
use voidchats_note2ee.Attachments.Groups.{Group, list_expired_reservation_groups}
use voidchats_note2ee.Attachments.Reconciling.{
  no_message, a_message, settle_group, was_committed, was_released, mark_committed,
  release_to_staged,
}
use voidchats_note2ee.Attachments.Reconciling.Settling.{Justified, settle_group-Justified}
use voidchats_note2ee.Attachments.Blobs.{
  Machine, Upload, World, read_staged_usage, assert_upload_allowed, create_blob, stage_blob,
  stage_blobs, insert_one, insert_rows, stage_prepared, stage_uploaded_attachments,
}
use voidchats_note2ee.Attachments.Blobs.Quota.{upload_within_quota}
use voidchats_note2ee.Attachments.Collecting.{claim_blob, drop_blob}
use voidchats_note2ee.Attachments.Steps.{reserves, commits, deletes, step}
use voidchats_note2ee.Attachments.Site.{Site, Event, calls, claims, removes, happen, history}
use voidchats_note2ee.Attachments.Lifecycle.Phases.{Change, phase_of, step-Change}
use voidchats_note2ee.Attachments.Lifecycle.History.{rows_of}
use voidchats_note2ee.Attachments.Lifecycle.Outcomes.{
  is_in_message, is_well_formed, row_passes, row_fits, Cause, history_committed, history-WellFormed,
  commit-Cause,
}
use voidchats_note2ee.Attachments.Safety.History.{SiteSafe, can_serve, history_serves}

abbrev sample_config : Config
sample_config = record {
  staged_ttl_seconds = 86400;
  reservation_ttl_seconds = 300;
  staged_max_count = 25;
  staged_max_bytes = 100;
  cleanup_interval_seconds = 900;
  cleanup_batch_size = 50;
  reconciliation_batch_size = 25;
  blob_gc_grace_seconds = 86400;
  blob_gc_batch_size = 25;
}

-- Texts are their own trimmed form, and the identifier of a path is its number.
abbrev sample_texts : Texts
sample_texts = record {
  trim = λ t. t;
  is_json_like = λ t. false;
  parse_json = λ t. malformed;
  is_api_path = λ t. true;
  protected_id = λ t. some t;
}

-- File 7 of user 10 in conversation 5, staged until 900.
abbrev file : Attachment
file = record {
  id = 7;
  conversation_id = 5;
  uploader_id = 10;
  blob_id = 1;
  poster_blob_id = none;
  status = staged;
  size_bytes = some 3;
  staged_at = some 0;
  expires_at = some 900;
  reserved_at = none;
  reserved_until = none;
  reservation_id = none;
  committed_at = none;
  message_id = none;
  scylla_write_policy = none;
  scylla_write_acknowledged_at = none;
}

-- The reservation 40 of it for message 60.
abbrev request : ReservationIdentity
request = record {
  attachment_ids = 7 ∷ [];
  reservation_id = 40;
  message_id = 60;
  user_id = 10;
  conversation_id = 5;
}

abbrev held : Attachment
held = reserve_row 300 100 40 60 file

abbrev written : Attachment
written = acknowledge_row 110 held

abbrev sent : Attachment
sent = commit_row 120 written

abbrev photo : Blob
photo = record {
  id = 1;
  content_hash = some (48 ∷ []);
  bucket = 2;
  object_key = 65 ∷ [];
  size_bytes = some 3;
  content_type = some 4;
  shown_inline = some true;
  status = ready;
  ref_count = 1;
  orphaned_at = none;
}

abbrev with_row : Attachment → Db
with_row r = record { attachments = r ∷ []; blobs = photo ∷ []; ingests = []; sends = [] }

runs : Unit {0}
unfolding reserve_for_message reserve_classified reserve_free classify_attachment_reservation
    classify_rows classify_used assert_exact_rows acknowledge_scylla_write acknowledge_locked
    update_exactly commit_reservation release_reservation delete_staged_attachment delete_locked
    delete_where extract_protected_attachment_ids parse_all parse_attachment_descriptor settle_group
    mark_committed release_to_staged list_expired_reservation_groups create_object_key
    parse_object_key step happen history claim_blob drop_blob preserve_message_edit_attachments
    get_attachment_identity parse_descriptor stage_uploaded_attachments stage_prepared insert_rows
    insert_one stage_blobs stage_blob create_blob assert_upload_allowed insert_attachment
runs = tt

-- One message from the reservation to the commit, and the refusals on the way.
sending :
    (reserve_for_message sample_config 100 request (with_row file)
      ≡ given (reserved_new, with_row held))
    × (reserve_for_message sample_config 900 request (with_row file)
        ≡ failed 409 attachment_expired)
    × (reserve_for_message sample_config 100 (record request { user_id = 11 }) (with_row file)
        ≡ failed 403 attachment_forbidden)
    × (reserve_for_message sample_config 100
          (record request { attachment_ids = 8 ∷ [] })
          (with_row file)
        ≡ failed 400 attachment_not_found)
    × (reserve_for_message sample_config 105 (record request { message_id = 61 }) (with_row held)
        ≡ given (reserved_already 60 false, with_row held))
    × (reserve_for_message sample_config 105
          (record request { reservation_id = 41 })
          (with_row held)
        ≡ failed 409 already_used)
    × (acknowledge_scylla_write 110 request (with_row held) ≡ given (1, with_row written))
    × (commit_reservation 120 request (with_row written) ≡ given (1, with_row sent))
    × (delete_staged_attachment 120 7 10 5 (with_row sent) ≡ failed 409 not_staged)
unfolding runs
sending = (refl, refl, refl, refl, refl, refl, refl, refl, refl)

extracting :
    (extract_protected_attachment_ids sample_texts (an_array (a_text 7 ∷ a_text 8 ∷ []))
      ≡ given (7 ∷ 8 ∷ []))
    × (extract_protected_attachment_ids sample_texts (an_array (a_text 7 ∷ a_text 7 ∷ []))
        ≡ failed 400 attachment_duplicate)
unfolding runs
extracting = (refl, refl)

extract_lem_example :
    AreIdsOf sample_texts (a_text 7 ∷ a_text 8 ∷ []) (7 ∷ 8 ∷ [])
    × (length (a_text 7 ∷ a_text 8 ∷ []) ≤ 5)
    × ((a : ℕ) → times a (7 ∷ 8 ∷ []) ≤ 1)
unfolding runs
extract_lem_example = extract_lem sample_texts (a_text 7 ∷ a_text 8 ∷ []) (7 ∷ 8 ∷ []) refl

abbrev kind_tag : IdentityKind → ℕ → ℕ
kind_tag invalid t = 3 * t
kind_tag legacy t = 3 * t + 1
kind_tag protected t = 3 * t + 2

-- The identity of a path is its number and its kind.
abbrev edit_texts : EditTexts
edit_texts = record {
  trim = λ t. t;
  parse_json = λ t. malformed;
  path_id = λ t. if ltb t 100 then some t else none;
  tagged = kind_tag;
}

abbrev stored_texts : List Shown
stored_texts = text_value 7 ∷ text_value 200 ∷ []

-- The same attachments in another order are accepted; one of them twice is not.
editing :
    (preserve_message_edit_attachments edit_texts
        (some stored_texts)
        (a_list (text_value 200 ∷ text_value 7 ∷ []))
      ≡ preserved stored_texts)
    × (preserve_message_edit_attachments edit_texts
          (some stored_texts)
          (a_list (text_value 7 ∷ text_value 7 ∷ []))
        ≡ immutable)
unfolding runs
editing = (refl, refl)

preserve_iff_example :
    (preserve_message_edit_attachments edit_texts
        (some stored_texts)
        (a_list (text_value 200 ∷ text_value 7 ∷ []))
      ≡ preserved (existing_of (some stored_texts)))
    ↔ ((t : ℕ)
        → times t (identities edit_texts (existing_of (some stored_texts)))
          ≡ times t (identities edit_texts (text_value 200 ∷ text_value 7 ∷ [])))
preserve_iff_example =
    preserve_iff edit_texts (some stored_texts) (text_value 200 ∷ text_value 7 ∷ [])

top_id : List Blob → ℕ
top_id [] = 0
top_id (x ∷ xs) = max x.id (top_id xs)

abbrev sample_machine : Machine
sample_machine = record {
  digest = λ bytes. 48 ∷ [];
  normalize = λ t. t;
  fresh_id = λ blobs. suc (top_id blobs);
  put_fails = λ key. false;
}

above_top : (b : ℕ) (blobs : List Blob) → top_id blobs < b → count (has_blob_id b) blobs ≡ 0
unfolding top_id
above_top b [] h = refl
above_top b (x ∷ xs) h = ground (arith, above_top b xs)

sample_fresh : (blobs : List Blob) → count (has_blob_id (sample_machine.fresh_id blobs)) blobs ≡ 0
sample_fresh blobs = above_top (suc (top_id blobs)) blobs (omega arith)

abbrev site_of : Attachment → Site
site_of r = record {
  world = record {
    db = with_row r;
    objects = record { bucket = 2; object_key = 65 ∷ []; last_modified = 0 } ∷ [];
  };
  claim = none;
}

one-Keyed : (r : Attachment) → Keyed (r ∷ [])
one-Keyed r a = ground arith

file-SiteSafe : SiteSafe (site_of file)
file-SiteSafe = record {
  stored = refl;
  served = refl;
  claimed = refl;
  keyed = λ b. ground arith;
  placed = λ bucket key. ground arith;
}

abbrev events : List (ℕ × Event)
events = (100, calls (reserves request)) ∷ (200, claims 1) ∷ (300, removes) ∷ []

history_serves_example :
    can_serve (history sample_texts sample_config sample_machine 2 events (site_of file)).world held
    ≡ true
unfolding runs
history_serves_example =
    history_serves sample_texts sample_config sample_machine 2 sample_fresh events (site_of file)
      file-SiteSafe 7 held refl

history_committed_example :
    row_passes (is_in_message 60 40 10 5) (
      row_of 7 (
        rows_of (
          history sample_texts sample_config sample_machine 2
            ((130, calls (deletes 7 10 5)) ∷ [])
            (site_of sent))))
    ≡ true
history_committed_example =
    history_committed sample_texts sample_config sample_machine 2
      ((130, calls (deletes 7 10 5)) ∷ []) (site_of sent) (one-Keyed sent) 7 60 40 10 5 refl

commit-Cause_example :
    (is_reserved written.status ≡ true)
    × (sent.message_id ≡ written.message_id)
    × Cause sample_texts 120 (calls (commits request)) written
unfolding runs
commit-Cause_example =
    commit-Cause sample_texts sample_config sample_machine 2 120 (calls (commits request))
      (site_of written) (one-Keyed written) 7 written sent refl refl refl refl

history-WellFormed_example :
    row_fits is_well_formed (
      row_of 7
        (rows_of (history sample_texts sample_config sample_machine 2 events (site_of file))))
    ≡ true
history-WellFormed_example =
    history-WellFormed sample_texts sample_config sample_machine 2 events (site_of file)
      (one-Keyed file) 7 refl

step-Change_example : Change (commits request) 120 (phase_of (some written)) (
    phase_of (
      row_of 7
        (step sample_texts sample_config 120 (commits request) (with_row written)).attachments))
step-Change_example =
    step-Change sample_texts sample_config 120 (commits request) (with_row written)
      (one-Keyed written) 7

reserve_for_message_lem_example :
    WasTaken sample_config 100 request (with_row file) (with_row held) 7
    × (row_of 8 (with_row held).attachments ≡ row_of 8 (with_row file).attachments)
unfolding runs
reserve_for_message_lem_example =
    reserve_for_message_lem sample_config 100 request (with_row file) (one-Keyed file) refl
      (with_row held) refl 7 8 refl refl

abbrev other_request : ReservationIdentity
other_request = record request { reservation_id = 41 }

reserve_refuses_used_example :
    reserve_for_message sample_config 105 other_request (with_row held)
    ≢ given (reserved_new, with_row held)
reserve_refuses_used_example =
    reserve_refuses_used sample_config 105 other_request (with_row held) (one-Keyed held) 7 held
      refl refl refl refl (reserved_new, with_row held)

abbrev late_group : Group
late_group = record {
  conversation_id = 5;
  uploader_id = 10;
  reservation_id = 40;
  message_id = 60;
  scylla_write_policy = some 1;
  scylla_write_acknowledged = true;
  attachment_ids = 7 ∷ [];
}

-- When the reservation of the acknowledged write is over, the worker finds its group; without a
-- message it returns the file, with one it commits it.
settling :
    (list_expired_reservation_groups (100 + seconds 300) 25 (with_row written) ≡ late_group ∷ [])
    × ((settle_group 300 (100 + seconds 300) no_message late_group (with_row written)).0
        ≡ was_released)
    × ((settle_group 300
          (100 + seconds 300)
          (a_message (some 10) (some (7 ∷ [])))
          late_group
          (with_row written)).0
        ≡ was_committed)
    × ((settle_group 300 200 no_message late_group (with_row held)).0 ≢ was_released)
unfolding runs
settling = (refl, refl, refl, λ h. ground arith)

settle_group-Justified_example :
    Justified no_message late_group
      (with_row written)
      (settle_group 300 (100 + seconds 300) no_message late_group (with_row written)).0
    × (((settle_group 300 (100 + seconds 300) no_message late_group (with_row written)).1
          ≡ with_row written)
        ⊎ (((settle_group 300 (100 + seconds 300) no_message late_group (with_row written)).0
              ≡ was_committed)
            ⊎ ((settle_group 300 (100 + seconds 300) no_message late_group (with_row written)).0
                ≡ was_released)))
settle_group-Justified_example =
    settle_group-Justified 300 (100 + seconds 300) no_message late_group (with_row written)
      (omega arith)

abbrev zeros : Text
zeros = 48 ∷ 48 ∷ 48 ∷ 48 ∷ 48 ∷ 48 ∷ 48 ∷ 48 ∷ 48 ∷ 48 ∷ 48 ∷ 48 ∷ 48 ∷ 48 ∷ 48 ∷ 48 ∷ []

abbrev zero_hash : Text
zero_hash = zeros ++ zeros ++ zeros ++ zeros

abbrev zero_key : Text
zero_key = object_prefix ++ 48 ∷ 48 ∷ 47 ∷ zero_hash

parse-create_example : parse_object_key zero_key ≡ some zero_hash
unfolding runs
parse-create_example = parse-create (λ t. t) zero_hash zero_key refl

-- Every content has one digest.
abbrev hashing_machine : Machine
hashing_machine = record sample_machine { digest = λ bytes. zero_hash }

abbrev upload : Upload
upload = record { id = 9; buffer = 1 ∷ 2 ∷ []; content_type = 4; shown_inline = true }

abbrev before_upload : World
before_upload = (site_of file).world

upload_within_quota_example :
    let outcome =
      stage_uploaded_attachments sample_config hashing_machine 2 100 10 5
        (upload ∷ [])
        before_upload in
    ((read_staged_usage 10 outcome.1.db).0 ≤ 25) × ((read_staged_usage 10 outcome.1.db).1 ≤ 100)
unfolding runs top_id
upload_within_quota_example =
    upload_within_quota sample_config hashing_machine 2 100 10 5 (upload ∷ []) before_upload refl
