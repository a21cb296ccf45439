-- ===== src/Documents/Aggregate.antt =====
-- DocumentAggregate (src/contexts/documents/domain/aggregates/document.aggregate.ts). A mutator returns
-- the new document with the events it applies, in order, or the exception that it throws; an event
-- carries its payload without the metadata. Identifiers are numbers, as are times. What the
-- aggregate takes from nestjs-kit (equality of value objects, the check that a value object makes
-- of a string, and `touch`) is a parameter.
pub mod Lifecycle
use shiori_api.Shared.{
  ℕ, ◌≡◌, ◌↔◌, Bool, true, false, Option, none, some, List, [], ◌∷◌, ◌++◌, Str, codes, str_eq,
  if◌then◌else◌,
}
use shiori_api.Exceptions.{Exception, invalid_status_transition, invalid_value}
use shiori_api.Tenancy.{Result, ok, err, ◌>>=◌}

pub data DocumentStatus : Type 0 where
  pending chunking chunked failed : DocumentStatus

-- the string of the enum member
abbrev pub status_value : DocumentStatus → Str
status_value pending = codes "PENDING"
status_value chunking = codes "CHUNKING"
status_value chunked = codes "CHUNKED"
status_value failed = codes "FAILED"

abbrev pub is_status : DocumentStatus → DocumentStatus → Bool
is_status pending pending = true
is_status chunking chunking = true
is_status chunked chunked = true
is_status failed failed = true
is_status _ _ = false

pub record Document : Type 0 where
  pub id : ℕ
  pub knowledge_base_id : ℕ
  pub title : Str
  pub content : Str
  pub status : DocumentStatus
  pub failure_reason : Option Str
  pub chunk_count : ℕ
  pub created_at : ℕ
  pub updated_at : ℕ

pub data Event : Type 0 where
  document_created : Document → Event
  document_updated : Document → Event
  document_title_changed : ℕ → Str → Str → Event
  document_content_changed : ℕ → Str → Str → Event
  document_rechunk_requested : Document → Event
  document_deleted : Document → Event
  document_chunking_started : Document → Event
  document_chunked : Document → Event
  document_chunking_failed : Document → Event

-- The value objects of the context, by the options given to nestjs-kit's StringValueObject.
pub data StringKind : Type 0 where
  title_text content_text reason_text chunk_text : StringKind

pub record Kit : Type 0 where
  -- whether the constructor of the value object takes the string; else it throws
  pub accepts : StringKind → Str → Bool
  pub equals : Str → Str → Bool
  pub equals_iff : (a b : Str) → (equals a b ≡ true) ↔ (a ≡ b)
  -- `updatedAt` behind `touch()`, from what it was and the clock
  pub touched : ℕ → ℕ → ℕ

abbrev pub Change : Type 0
Change = Document × List Event

module _ (kit : Kit) (now : ℕ) where
  abbrev pub touch : Document → Document
  touch d = record d { updated_at = kit.touched d.updated_at now }

  unfoldable pub change_title : Str → Document → Change
  change_title new d =
      if kit.equals d.title new
      then (d, [])
      else (touch (record d { title = new }), document_title_changed d.id d.title new ∷ [])

  unfoldable pub change_content : Str → Document → Change
  change_content new d = if kit.equals d.content new then (d, []) else (
    touch (record d { content = new; status = pending; chunk_count = 0; failure_reason = none }),
    document_content_changed d.id d.content new ∷ [],
  )

  -- `if (value !== undefined) change(value)`
  abbrev pub when_given : Option Str → (Str → Document → Change) → Document → Change
  when_given none change d = (d, [])
  when_given (some v) change d = change v d

  unfoldable pub update : Option Str → Option Str → Document → Result Change
  unfolding change_title change_content
  update title content d =
      if is_status d.status chunking
      then err (invalid_status_transition (status_value d.status) (codes "updated-while-chunking"))
      else let (d', retitled) = when_given title change_title d in
        let (d'', rewritten) = when_given content change_content d' in
        ok (d'', retitled ++ (rewritten ++ document_updated d'' ∷ []))

  unfoldable pub request_rechunk : Document → Result Change
  request_rechunk d =
      if is_status d.status chunking
      then err
          (invalid_status_transition (status_value d.status) (codes "rechunked-while-chunking"))
      else let d' = touch (record d { status = pending; chunk_count = 0; failure_reason = none }) in
        ok (d', document_rechunk_requested d' ∷ [])

  abbrev pub assert_transition : DocumentStatus → DocumentStatus → Document → Result (Unit {0})
  assert_transition expected_from to d =
      if is_status d.status expected_from
      then ok tt
      else err (invalid_status_transition (status_value d.status) (status_value to))

  unfoldable pub start_chunking : Document → Result Change
  start_chunking d = do
    _ ← assert_transition pending chunking d
    let d' = touch (record d { status = chunking })
    ok (d', document_chunking_started d' ∷ [])

  unfoldable pub complete_chunking : ℕ → Document → Result Change
  complete_chunking count d = do
    _ ← assert_transition chunking chunked d
    let d' = touch (record d { status = chunked; chunk_count = count; failure_reason = none })
    ok (d', document_chunked d' ∷ [])

  -- The value object of the reason may refuse it.
  unfoldable pub fail_chunking : Str → Document → Result Change
  fail_chunking reason d = do
    _ ← assert_transition chunking failed d
    if kit.accepts reason_text reason
        then (let d' = touch (record d { status = failed; failure_reason = some reason }) in
            ok (d', document_chunking_failed d' ∷ []))
        else err invalid_value

unfoldable pub create : Document → Change
create d = (d, document_created d ∷ [])

unfoldable pub delete : Document → Change
delete d = (d, document_deleted d ∷ [])
